-- ===== src/Tests/Construction.antt =====
-- A TLS library that keeps count of its handles, and has no private key.
use sockpuppet.Base.{suc, ◌-◌, refl, Bool, true, false, some, ok, List, [], ◌∷◌}
use sockpuppet.Base.Int.{pos}
use sockpuppet.Tls.Construct.{Crypto, Process}
use sockpuppet.Tls.Construct.Ledger.{
  Held, CryptoLaws, Ends, level, with_context, with_descriptor, with_instance,
}
use sockpuppet.Tls.Public.{Host, tls_socket_tcp, tls_acceptor, tls_listen}
use sockpuppet.Tls.Public.Undo.{HostLaws, EndsSome, with_socket}
use sockpuppet.Tls.Public.Balance.{tls_api-Ends}
use sockpuppet.Tests.World.{TestWorld, test_sys, start}
use sockpuppet.Tests.Addresses.{linux}
use sockpuppet.Tests.Endpoints.{test_descriptors, tcp_only}
use sockpuppet.Tls.Construct.Guard.{
  ReadyLaws, Change, construct, destroy, instances, run_changes, Counts, run_changes-Counts,
}

pub record Library : Type 0 where
  pub handles : Held
  pub is_ready : Bool
  pub system : TestWorld

abbrev on_handles : (Held → Held) → Library → Library
on_handles f w = record w { handles = f w.handles }

abbrev test_crypto : Crypto
test_crypto = record {
  World = Library;
  init = λ w. record w { is_ready = true };
  cleanup = λ w. record w { is_ready = false };
  ctx_new = λ m w. (some 1, on_handles (λ h. record h { contexts = suc h.contexts }) w);
  ctx_free = λ c. on_handles (λ h. record h { contexts = h.contexts - 1 });
  set_mode = λ c w. (true, w);
  set_ecdh_auto = λ c w. (true, w);
  use_certificate_file = λ c w. (true, w);
  use_private_key_file = λ c w. (false, w);
  bio_new = λ w. (some 2, on_handles (λ h. record h { bios = suc h.bios }) w);
  bio_free = λ b. on_handles (λ h. record h { bios = h.bios - 1 });
  ssl_new = λ c w. (some 3, on_handles (λ h. record h { sessions = suc h.sessions }) w);
  ssl_free = λ c. on_handles (λ h. record h { sessions = h.sessions - 1 });
  set_bio = λ s r b. on_handles (λ h. record h { bios = h.bios - 2 });
  create_socket = λ w. (ok 7, on_handles (λ h. record h { descriptors = suc h.descriptors }) w);
  close = λ fd. on_handles (λ h. record h { descriptors = h.descriptors - 1 });
  accept_socket =
      λ fd w. (ok (8, 1 ∷ []), on_handles (λ h. record h { descriptors = suc h.descriptors }) w);
  set_accept_state = λ h w. w;
  set_connect_state = λ h w. w;
}

test_crypto-laws : CryptoLaws test_crypto
test_crypto-laws = record {
  held = λ w. w.handles;
  init_held = λ w. refl;
  cleanup_held = λ w. refl;
  ctx_new_held = λ m w. refl;
  ctx_free_held = λ c w. refl;
  set_mode_held = λ c w. refl;
  set_ecdh_auto_held = λ c w. refl;
  use_certificate_file_held = λ c w. refl;
  use_private_key_file_held = λ c w. refl;
  bio_new_held = λ w. refl;
  bio_free_held = λ b w. refl;
  ssl_new_held = λ c w. refl;
  ssl_free_held = λ c w. refl;
  set_bio_held = λ c r b w. refl;
  create_socket_held = λ w. refl;
  close_held = λ fd w. refl;
  accept_socket_held = λ fd w. refl;
  set_accept_state_held = λ h w. refl;
  set_connect_state_held = λ h w. refl;
}

test_crypto-ready : ReadyLaws test_crypto
test_crypto-ready = record {
  is_ready = λ w. w.is_ready;
  init_ready = λ w. refl;
  cleanup_ready = λ w. refl;
}

abbrev unused : Process Library
unused = record {
  curr = pos 0;
  world = record {
    handles = record { descriptors = 0; contexts = 0; bios = 0; sessions = 0 };
    is_ready = false;
    system = start;
  };
}

-- The private key fails, so the constructors throw; listening accepts a socket.
abbrev test_host : Host test_sys test_crypto
test_host = record {
  on_sys = λ m w. let (r, v) = m w.system in (r, record w { system = v });
  shut_down = λ h w. (ok tt, w);
}

test_host-laws : HostLaws test_descriptors test_crypto-laws test_host
unfolding test_crypto-laws
test_host-laws = record { on_sys_held = λ m w k. refl; shut_down_held = λ h w. refl }

tls_api-Ends_example :
    let l = level test_crypto test_crypto-laws unused in
    Ends test_crypto test_crypto-laws
      (with_socket l)
      l
      (tls_socket_tcp test_sys linux (λ f. f) true test_crypto test_host tcp_only unused)
    × Ends test_crypto test_crypto-laws
        (with_context (with_instance (with_descriptor l)))
        l
        (tls_acceptor test_sys linux (λ f. f) true test_crypto test_host tcp_only unused)
    × EndsSome test_crypto test_crypto-laws
        (with_socket l)
        l
        (tls_listen test_sys linux (λ f. f) true test_crypto test_host 7 1 (pos 5) unused)
tls_api-Ends_example =
    tls_api-Ends test_sys linux (λ f. f) true test_crypto test_host test_descriptors
      test_crypto-laws test_host-laws tcp_only 7 1 (pos 5) unused

abbrev changes : List Change
changes = construct ∷ construct ∷ destroy ∷ destroy ∷ construct ∷ []

run_changes-Counts_example :
    Counts test_crypto test_crypto-ready
      (instances changes 0)
      (run_changes test_crypto test_crypto-ready changes unused)
unfolding test_crypto-ready
run_changes-Counts_example =
    run_changes-Counts test_crypto test_crypto-ready changes 0 unused
      (record { count = refl; ready = refl }) tt
