-- ===== src/Tls/Construct/Handles.antt =====
-- `CreateCtx` and `CreateSsl` of src/socket_tls_impl.cpp leak nothing, whichever call fails.
use sockpuppet.Base.{ℕ, ◌-◌, ◌≡◌, refl, ap, ◌∙◌, Option, none, some, arith}
use sockpuppet.Tls.Construct.{
  Crypto, Process, Method, doing, configure_ctx, create_ctx, set_bios, configure_ssl, create_ssl,
}
use sockpuppet.Tls.Construct.Ledger.{
  Held, CryptoLaws, count_of, pred_suc, Level, with_context, with_session, with_descriptor, bios_at,
  level, Ends, Ends-and_then, Ends-or_undo, at_world, set_or_throw-Ends, handle_or_throw-Ends,
}

module _ (crypto : Crypto) (laws : CryptoLaws crypto) where
  open crypto use {World}
  open laws use {held}

  configure_ctx-Ends :
      (l : Level) (c : ℕ) (s : Process World)
      → level crypto laws s ≡ l
      → Ends crypto laws l l (configure_ctx crypto c s)
  configure_ctx-Ends l c s q =
      Ends-and_then crypto laws l l l _ _
        (set_or_throw-Ends crypto laws l (crypto.set_mode c) _ s (laws.set_mode_held c) q)
        λ _ s1 q1.
          Ends-and_then crypto laws l l l _ _
            (set_or_throw-Ends crypto laws l (crypto.set_ecdh_auto c) _ s1
              (laws.set_ecdh_auto_held c) q1)
            λ _ s2 q2.
              Ends-and_then crypto laws l l l _ _
                (set_or_throw-Ends crypto laws l (crypto.use_certificate_file c) _ s2
                  (laws.use_certificate_file_held c) q2)
                λ _ s3 q3.
                  set_or_throw-Ends crypto laws l (crypto.use_private_key_file c) _ s3
                    (laws.use_private_key_file_held c) q3

  pub free_context :
      (l : Level) (c : ℕ) (s : Process World)
      → level crypto laws s ≡ with_context l
      → level crypto laws (doing crypto (crypto.ctx_free c) s) ≡ l
  free_context l c s q = at_world crypto laws s (with_context l) _ l.1 q (
      laws.ctx_free_held c s.world
      ∙ (ap (λ (p : Level). record p.1 { contexts = p.1.contexts - 1 }) q
          ∙ ap (λ n. record l.1 { contexts = n }) (pred_suc l.1.contexts)))

  pub create_ctx-Ends :
      (l : Level) (m : Method) (s : Process World)
      → level crypto laws s ≡ l
      → Ends crypto laws (with_context l) l (create_ctx crypto m s)
  create_ctx-Ends l m s q =
      Ends-and_then crypto laws (with_context l) (with_context l) l _ _
        (handle_or_throw-Ends crypto laws l (λ n. record l.1 { contexts = n }) _
          (crypto.ctx_new m s.world) s l.1.contexts refl
          (laws.ctx_new_held m s.world
            ∙ ap
                (λ (p : Level). record p.1 {
                  contexts = count_of (crypto.ctx_new m s.world).0 p.1.contexts;
                })
                q)
          q)
        λ c s1 q1.
          Ends-or_undo crypto laws (with_context l) (with_context l) l _ _
            (Ends-and_then crypto laws (with_context l) (with_context l) (with_context l) _ _
              (configure_ctx-Ends (with_context l) c s1 q1) (λ _ s2 q2. q2))
            (free_context l c)

  pub free_session :
      (l : Level) (h : ℕ) (s : Process World)
      → level crypto laws s ≡ with_session l
      → level crypto laws (doing crypto (crypto.ssl_free h) s) ≡ l
  free_session l h s q = at_world crypto laws s (with_session l) _ l.1 q (
      laws.ssl_free_held h s.world
      ∙ (ap (λ (p : Level). record p.1 { sessions = p.1.sessions - 1 }) q
          ∙ ap (λ n. record l.1 { sessions = n }) (pred_suc l.1.sessions)))

  pub close_descriptor :
      (l : Level) (fd : ℕ) (s : Process World)
      → level crypto laws s ≡ with_descriptor l
      → level crypto laws (doing crypto (crypto.close fd) s) ≡ l
  close_descriptor l fd s q = at_world crypto laws s (with_descriptor l) _ l.1 q (
      laws.close_held fd s.world
      ∙ (ap (λ (p : Level). record p.1 { descriptors = p.1.descriptors - 1 }) q
          ∙ ap (λ n. record l.1 { descriptors = n }) (pred_suc l.1.descriptors)))

  set_bios-Ends :
      (l : Level) (ssl : ℕ) (rbio wbio : Option ℕ) (s : Process World)
      → level crypto laws s ≡ (l.0, bios_at l (count_of wbio (count_of rbio l.1.bios)))
      → Ends crypto laws l l (set_bios crypto ssl rbio wbio s)
  set_bios-Ends l ssl (some r) (some w) s q = at_world crypto laws s _ _ l.1 q (
      laws.set_bio_held ssl r w s.world
      ∙ (ap (λ (p : Level). record p.1 { bios = p.1.bios - 2 }) q ∙ ap (bios_at l) (omega arith)))
  set_bios-Ends l ssl (some r) none s q = at_world crypto laws s _ _ l.1 q (
      laws.bio_free_held r s.world
      ∙ (ap (λ (p : Level). record p.1 { bios = p.1.bios - 1 }) q ∙ ap (bios_at l) (omega arith)))
  set_bios-Ends l ssl none (some w) s q = at_world crypto laws s _ _ l.1 q (
      laws.bio_free_held w s.world
      ∙ (ap (λ (p : Level). record p.1 { bios = p.1.bios - 1 }) q ∙ ap (bios_at l) (omega arith)))
  set_bios-Ends l ssl none none s q = q

  configure_ssl-Ends :
      (l : Level) (ssl : ℕ) (s : Process World)
      → level crypto laws s ≡ l
      → Ends crypto laws l l (configure_ssl crypto ssl s)
  configure_ssl-Ends l ssl s q =
      let (rbio, w1) = crypto.bio_new s.world in
      let (wbio, w2) = crypto.bio_new w1 in
      let first : held w1 ≡ bios_at l (count_of rbio l.1.bios) =
        laws.bio_new_held s.world
        ∙ ap (λ (p : Level). record p.1 { bios = count_of rbio p.1.bios }) q in
      let second : held w2 ≡ bios_at l (count_of wbio (count_of rbio l.1.bios)) =
        laws.bio_new_held w1 ∙ ap (λ (h : Held). record h { bios = count_of wbio h.bios }) first in
      set_bios-Ends l ssl rbio wbio (record s { world = w2 })
        (at_world crypto laws s l w2 _ q second)

  pub create_ssl-Ends :
      (l : Level) (ctx : ℕ) (s : Process World)
      → level crypto laws s ≡ l
      → Ends crypto laws (with_session l) l (create_ssl crypto ctx s)
  create_ssl-Ends l ctx s q =
      Ends-and_then crypto laws (with_session l) (with_session l) l _ _
        (handle_or_throw-Ends crypto laws l (λ n. record l.1 { sessions = n }) _
          (crypto.ssl_new ctx s.world) s l.1.sessions refl
          (laws.ssl_new_held ctx s.world
            ∙ ap
                (λ (p : Level). record p.1 {
                  sessions = count_of (crypto.ssl_new ctx s.world).0 p.1.sessions;
                })
                q)
          q)
        λ h s1 q1.
          Ends-or_undo crypto laws (with_session l) (with_session l) l _ _
            (Ends-and_then crypto laws (with_session l) (with_session l) (with_session l) _ _
              (configure_ssl-Ends (with_session l) h s1 q1) (λ _ s2 q2. q2))
            (free_session l h)
