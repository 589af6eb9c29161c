-- ===== src/Address/Text/Printed.antt =====
-- What src/address_impl.cpp prints is the host and the service, put together.
use sockpuppet.Base.{
  ℕ, ◌+◌, ◌-◌, ◌≡◌, refl, sym, ap, ◌∙◌, Bool, true, false, not, List, [], ◌∷◌, ◌++◌, append_assoc,
  append-nil, length, length-append, length-replicate, take, drop, replicate, ◌==◌, Result, ok, err,
  system_error, arith,
}
use sockpuppet.Base.Sequence.{any}
use sockpuppet.Address.{Address, for_any}
use sockpuppet.Address.Text.{
  Names, failed, named, NameInfo, find_nul, erase_from, erase_to, set_at, overlay, shift_parts,
  fill_parts, to_string, host_of, service_of,
}
use sockpuppet.Address.Text.Parts.{
  c_text, is_nul, take_past, drop_past, set_at_past, find_nul_past, overlay_lem, find_nul-text,
  take-text, c_text_le, zeros,
}

-- `getnameinfo` fills its buffers and ends both texts with a null character.
pub record NameInfoLaws (info : NameInfo) : Type 0 where
  pub host_length : (a h s : List ℕ) → info.getnameinfo a ≡ named h s → length h ≡ info.ni_maxhost
  pub serv_length : (a h s : List ℕ) → info.getnameinfo a ≡ named h s → length s ≡ info.ni_maxserv
  pub host_ended : (a h s : List ℕ) → info.getnameinfo a ≡ named h s → any is_nul h ≡ true
  pub serv_ended : (a h s : List ℕ) → info.getnameinfo a ≡ named h s → any is_nul s ≡ true

-- The text of an address: `host:serv`, or `[host]:serv` if it is not of the family AF_INET.
abbrev pub join : Bool → List ℕ → List ℕ → List ℕ
join true host serv = (b'[' ∷ host ++ b']' ∷ []) ++ b':' ∷ serv
join false host serv = host ++ b':' ∷ serv

abbrev pub joined : Bool → Names → Result (List ℕ)
joined is_v6 (failed code) = err (system_error code "failed to print address")
joined is_v6 (named host serv) = ok (join is_v6 (c_text host) (c_text serv))

-- The buffer is cut behind the service.
cut_lem :
    (pre s tail : List ℕ) (k : ℕ)
    → k ≡ length pre
    → any is_nul s ≡ true
    → erase_from (pre ++ (s ++ tail)) (find_nul (pre ++ (s ++ tail)) k) ≡ ok (pre ++ c_text s)
cut_lem pre s tail k e n =
    rw (find_nul_past pre (s ++ tail) k (length (c_text s)) e (find_nul-text s tail n)) (
      ap ok (
        take_past pre (s ++ tail) (k + length (c_text s)) (length (c_text s)) (omega (arith, e))
        ∙ ap (◌++◌ pre) (take-text s tail)))

-- What stands between the end of the host and the colon, or the bracket, is erased.
close_gap :
    (pre h back : List ℕ) (k end_pos : ℕ)
    → k ≡ length pre
    → end_pos ≡ length pre + length h
    → any is_nul h ≡ true
    → erase_to (pre ++ (h ++ back)) (find_nul (pre ++ (h ++ back)) k) end_pos
      ≡ ok (pre ++ (c_text h ++ back))
close_gap pre h back k end_pos e l n =
    let m = length (c_text h) in
    let front : take (k + m) (pre ++ (h ++ back)) ≡ pre ++ c_text h =
      take_past pre (h ++ back) (k + m) m (omega (arith, e)) ∙ ap (◌++◌ pre) (take-text h back) in
    let rest : drop (k + m + (end_pos - (k + m))) (pre ++ (h ++ back)) ≡ back =
      drop_past pre (h ++ back) (k + m + (end_pos - (k + m))) (length h)
        (omega (arith, e, l, c_text_le h))
      ∙ drop_past h back (length h) 0 (omega arith) in
    rw (find_nul_past pre (h ++ back) k m e (find_nul-text h back n), front, rest)
      (ap ok (append_assoc pre (c_text h) back))

module _ (info : NameInfo) (h s : List ℕ) (lh : length h ≡ info.ni_maxhost)
    (ls : length s ≡ info.ni_maxserv) (nh : any is_nul h ≡ true) (ns : any is_nul s ≡ true) where
  open info use {ni_maxhost, ni_maxserv}

  shift_plain :
      (tail : List ℕ)
      → shift_parts info false 0 (ni_maxhost + 1) ((h ++ 0 ∷ []) ++ (s ++ tail))
        ≡ ok (join false (c_text h) (c_text s))
  shift_plain tail =
      let cut =
        cut_lem (h ++ 0 ∷ []) s tail (ni_maxhost + 1) (omega (arith, length-append h (0 ∷ []), lh))
          ns in
      let colon : set_at ((h ++ 0 ∷ []) ++ c_text s) (ni_maxhost + 1 - 1) b':'
          ≡ h ++ b':' ∷ c_text s =
        ap (λ l. set_at l (ni_maxhost + 1 - 1) b':') (append_assoc h (0 ∷ []) (c_text s))
        ∙ set_at_past h (c_text s) (ni_maxhost + 1 - 1) 0 b':' (omega (arith, lh)) in
      rw (cut, colon)
        (close_gap [] h (b':' ∷ c_text s) 0 (ni_maxhost + 1 - 1) refl (omega (arith, lh)) nh)

  shift_bracketed :
      (tail : List ℕ)
      → shift_parts info true 1 (ni_maxhost + 3) ((b'[' ∷ h ++ 0 ∷ 0 ∷ []) ++ (s ++ tail))
        ≡ ok (join true (c_text h) (c_text s))
  shift_bracketed tail =
      let p : List ℕ = b'[' ∷ h in
      let t : List ℕ = c_text s in
      let cut =
        cut_lem (p ++ 0 ∷ 0 ∷ []) s tail (ni_maxhost + 3)
          (omega (arith, length-append h (0 ∷ 0 ∷ []), lh)) ns in
      let colon : set_at ((p ++ 0 ∷ 0 ∷ []) ++ t) (ni_maxhost + 3 - 1) b':' ≡ p ++ 0 ∷ b':' ∷ t =
        ap (λ l. set_at l (ni_maxhost + 3 - 1) b':')
          (append_assoc p (0 ∷ 0 ∷ []) t ∙ sym (append_assoc p (0 ∷ []) (0 ∷ t)))
        ∙ set_at_past (p ++ 0 ∷ []) t (ni_maxhost + 3 - 1) 0 b':'
            (omega (arith, length-append h (0 ∷ []), lh))
        ∙ append_assoc p (0 ∷ []) (b':' ∷ t) in
      let closed : set_at (p ++ 0 ∷ b':' ∷ t) (ni_maxhost + 3 - 2) b']' ≡ p ++ b']' ∷ b':' ∷ t =
        set_at_past p (b':' ∷ t) (ni_maxhost + 3 - 2) 0 b']' (omega (arith, lh)) in
      rw (cut, colon, closed)
        (close_gap (b'[' ∷ []) h (b']' ∷ b':' ∷ t) 1 (ni_maxhost + 3 - 2) refl (omega (arith, lh))
            nh
          ∙ ap (λ l. ok (b'[' ∷ l)) (sym (append_assoc (c_text h) (b']' ∷ []) (b':' ∷ t))))

  filled_plain :
      overlay (overlay (replicate (ni_maxhost + ni_maxserv + 3) 0) 0 h) (ni_maxhost + 1) s
      ≡ (h ++ 0 ∷ []) ++ (s ++ 0 ∷ 0 ∷ [])
  filled_plain =
      let room : List ℕ = replicate ni_maxserv 0 in
      let blank : replicate {A = ℕ} (ni_maxhost + ni_maxserv + 3) 0
          ≡ replicate ni_maxhost 0 ++ 0 ∷ (room ++ 0 ∷ 0 ∷ []) =
        zeros ni_maxhost (ni_maxserv + 3) _ (omega arith)
        ∙ ap (◌++◌ (replicate ni_maxhost 0))
            (zeros 1 (ni_maxserv + 2) _ (omega arith) ∙ ap (◌∷◌ 0) (zeros ni_maxserv 2 _ refl)) in
      let host : overlay (replicate ni_maxhost 0 ++ 0 ∷ (room ++ 0 ∷ 0 ∷ [])) 0 h
          ≡ h ++ 0 ∷ (room ++ 0 ∷ 0 ∷ []) =
        overlay_lem [] (replicate ni_maxhost 0) (0 ∷ (room ++ 0 ∷ 0 ∷ [])) h 0 refl
          (length-replicate ni_maxhost 0 ∙ sym lh) in
      rw (blank, host, sym (append_assoc h (0 ∷ []) (room ++ 0 ∷ 0 ∷ [])))
        (overlay_lem (h ++ 0 ∷ []) room (0 ∷ 0 ∷ []) s (ni_maxhost + 1)
          (omega (arith, length-append h (0 ∷ []), lh)) (length-replicate ni_maxserv 0 ∙ sym ls))

  filled_bracketed :
      overlay
        (overlay (set_at (replicate (ni_maxhost + ni_maxserv + 3) 0) 0 b'[') 1 h)
        (ni_maxhost + 3)
        s
      ≡ (b'[' ∷ h ++ 0 ∷ 0 ∷ []) ++ (s ++ [])
  filled_bracketed =
      let room : List ℕ = replicate ni_maxserv 0 in
      let back : List ℕ = 0 ∷ 0 ∷ (room ++ []) in
      let blank : replicate {A = ℕ} (ni_maxhost + ni_maxserv + 3) 0
          ≡ 0 ∷ (replicate ni_maxhost 0 ++ back) =
        zeros 1 (ni_maxhost + ni_maxserv + 2) _ (omega arith)
        ∙ ap (◌∷◌ 0) (
            zeros ni_maxhost (ni_maxserv + 2) _ (omega arith)
            ∙ ap (◌++◌ (replicate ni_maxhost 0)) (
                zeros 2 ni_maxserv _ (omega arith)
                ∙ ap (λ l. 0 ∷ 0 ∷ l) (sym (append-nil room)))) in
      let host : overlay (b'[' ∷ (replicate ni_maxhost 0 ++ back)) 1 h ≡ b'[' ∷ (h ++ back) =
        overlay_lem (b'[' ∷ []) (replicate ni_maxhost 0) back h 1 refl
          (length-replicate ni_maxhost 0 ∙ sym lh) in
      let regroup : (b'[' ∷ (h ++ back)) ≡ (b'[' ∷ h ++ 0 ∷ 0 ∷ []) ++ (room ++ []) =
        sym (append_assoc (b'[' ∷ h) (0 ∷ 0 ∷ []) (room ++ [])) in
      rw (blank, host, regroup)
        (overlay_lem (b'[' ∷ h ++ 0 ∷ 0 ∷ []) room [] s (ni_maxhost + 3)
          (omega (arith, length-append h (0 ∷ 0 ∷ []), lh))
          (length-replicate ni_maxserv 0 ∙ sym ls))

  fill_parts-joined : (is_v6 : Bool) → fill_parts info is_v6 (named h s) ≡ joined is_v6 (named h s)
  fill_parts-joined true = rw filled_bracketed (shift_bracketed [])
  fill_parts-joined false = rw filled_plain (shift_plain (0 ∷ 0 ∷ []))

-- Printing shifts host and service about within one buffer; what comes out is just the host, in brackets
-- unless the address is of the family AF_INET, a colon and the service, or the error of the look-up, if
-- `getnameinfo` fills its buffers and ends both texts with a null character.
pub to_string-joined :
    (info : NameInfo) (view : List ℕ)
    → NameInfoLaws info
    → to_string info view
      ≡ joined (not (info.sa_family view == info.af_inet)) (info.getnameinfo view)
unfolding to_string
to_string-joined info view laws = go (info.getnameinfo view) refl
  where
    is_v6 : Bool
    is_v6 = not (info.sa_family view == info.af_inet)

    go : (n : Names) → info.getnameinfo view ≡ n → fill_parts info is_v6 n ≡ joined is_v6 n
    go (failed code) e = refl
    go (named h s) e =
        fill_parts-joined info h s (laws.host_length view h s e) (laws.serv_length view h s e)
          (laws.host_ended view h s e) (laws.serv_ended view h s e) is_v6

-- `Host` and `Service` give the texts that stand in the buffers, or the error of the look-up.
pub host_of-service_of :
    (info : NameInfo) (address : Address) (h s : List ℕ)
    → NameInfoLaws info
    → info.getnameinfo (for_any address) ≡ named h s
    → (host_of info address ≡ ok (c_text h)) × (service_of info address ≡ ok (c_text s))
unfolding host_of service_of
host_of-service_of info address h s laws e = (
  rw e (
      whole h info.ni_maxhost (laws.host_length (for_any address) h s e)
        (laws.host_ended (for_any address) h s e)),
  rw e (
      whole s info.ni_maxserv (laws.serv_length (for_any address) h s e)
        (laws.serv_ended (for_any address) h s e)),
)
  where
    whole :
        (b : List ℕ) (n : ℕ)
        → length b ≡ n
        → any is_nul b ≡ true
        → erase_from (overlay (replicate n 0) 0 b) (find_nul (overlay (replicate n 0) 0 b) 0)
          ≡ ok (c_text b)
    whole b n l z =
        let filled : overlay (replicate n 0) 0 b ≡ b ++ [] =
          ap (λ r. overlay r 0 b) (sym (append-nil (replicate n 0)))
          ∙ overlay_lem [] (replicate n 0) [] b 0 refl (length-replicate n 0 ∙ sym l) in
        rw filled (cut_lem [] b [] 0 refl z)
