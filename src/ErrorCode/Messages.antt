-- ===== src/ErrorCode/Messages.antt =====
-- The texts of error codes in src/error_code_win.cpp end in no newline, and lose nothing else.
use sockpuppet.Base.{
  ℕ, zero, suc, ◌≡◌, refl, sym, ap, ◌∙◌, true, false, List, [], ◌∷◌, ◌++◌, length, append_assoc,
  append-nil, arith, Bool-cases, inl, inr, take, ◌≤◌,
}
use sockpuppet.Base.Int.{ℤ}
use sockpuppet.ErrorCode.{
  Texts, is_newline, ends_in_newline, pop_back, trim_loop, trim, unknown_error, message_buffer,
  formatted, win32_message, to_unsigned,
}

abbrev pub AllNewlines : List ℕ → Type 0
AllNewlines [] = Unit {0}
AllNewlines (c ∷ m) = (is_newline c ≡ true) × AllNewlines m

-- `r` is `m` without the newlines at its end.
pub record Trimmed (m r : List ℕ) : Type 0 where
  pub tail : List ℕ
  pub whole : m ≡ r ++ tail
  pub newlines : AllNewlines tail
  pub clean : ends_in_newline r ≡ false

-- The last character, of a text that ends in a newline.
popped :
    (m : List ℕ)
    → ends_in_newline m ≡ true
    → (c : ℕ) × (m ≡ pop_back m ++ c ∷ [])
      × (is_newline c ≡ true)
      × (length m ≡ suc (length (pop_back m)))
popped [] h = cc
popped (c ∷ []) h = (c, refl, h, refl)
popped (c ∷ d ∷ m) h = let (l, e, n, k) = popped (d ∷ m) h in (l, ap (◌∷◌ c) e, n, omega (arith, k))

AllNewlines-append : (s t : List ℕ) → AllNewlines s → AllNewlines t → AllNewlines (s ++ t)
AllNewlines-append [] t h k = k
AllNewlines-append (c ∷ s) t h k = (h.0, AllNewlines-append s t h.1 k)

trim_loop-Trimmed : (fuel : ℕ) (m : List ℕ) → length m ≤ fuel → Trimmed m (trim_loop fuel m)
unfolding trim_loop
trim_loop-Trimmed zero [] h = record { tail = []; whole = refl; newlines = tt; clean = refl }
trim_loop-Trimmed zero (c ∷ m) h = absurd (omega (arith, h))
trim_loop-Trimmed (suc fuel) m h = elim (Bool-cases (ends_in_newline m)) [
  | inr e ↦
      rw (e, trim_loop) (record { tail = []; whole = sym (append-nil m); newlines = tt; clean = e })
  | inl e ↦
      let (c, w, n, k) = popped m e in
      let t = trim_loop-Trimmed fuel (pop_back m) (omega (arith, h, k)) in
      rw (e, trim_loop)
        (record {
          tail = t.tail ++ c ∷ [];
          whole =
              w
              ∙ (ap (λ l. l ++ c ∷ []) t.whole
                  ∙ append_assoc (trim_loop fuel (pop_back m)) t.tail (c ∷ []));
          newlines = AllNewlines-append t.tail (c ∷ []) t.newlines (n, tt);
          clean = t.clean;
        })
]

module _ (texts : Texts) where
  -- What `FormatMessage` has written, without its newlines at the end, or the text for an unknown error.
  pub data Formatted (r : ℕ × List ℕ) (m : List ℕ) : Type 0 where
    unknown : r.0 ≡ 0 → m ≡ unknown_error → Formatted r m
    known : (n : ℕ) → r.0 ≡ suc n → Trimmed (take (suc n) (message_buffer r.1)) m → Formatted r m

  formatted-Formatted : (r : ℕ × List ℕ) → Formatted r (formatted texts r)
  unfolding trim
  formatted-Formatted (zero, written) = unknown refl refl
  formatted-Formatted (suc n, written) =
      known n refl (trim_loop-Trimmed _ (take (suc n) (message_buffer written)) (omega arith))

  -- The text of a Windows error: what `FormatMessage` has written for its code, all of it but the newlines at
  -- its end; or "Unknown error", if it has written nothing. The loop that trims comes to its end.
  pub win32_message-Formatted :
      (id : ℤ) → Formatted (texts.format_message (to_unsigned 32 id) 256) (win32_message texts id)
  unfolding win32_message
  win32_message-Formatted id = formatted-Formatted (texts.format_message (to_unsigned 32 id) 256)
