-- ===== src/Control/Request/Trim.antt =====
-- White space round a command line makes no difference.
use trust.Prelude.{ℕ, ap, ◌≡◌, inl, inr, refl, false, [], ◌∷◌, Text, Bool-cases}
use trust.Control.Request.{
  CommandParser, is_whitespace, trim_start, end_cons, trim_end, trim, parse,
}

-- The first character, if there is one, is no white space.
abbrev Starts : Text → Type 0
Starts [] = Unit
Starts (c ∷ s) = is_whitespace c ≡ false

trim_start-Starts : (s : Text) → Starts (trim_start s)
unfolding trim_start
trim_start-Starts [] = tt
trim_start-Starts (c ∷ s) = elim (Bool-cases (is_whitespace c)) [
  | inl e ↦ rw e (trim_start-Starts s)
  | inr e ↦ rw e e
]

trim_start_of_Starts : (s : Text) → Starts s → trim_start s ≡ s
unfolding trim_start
trim_start_of_Starts [] h = refl
trim_start_of_Starts (c ∷ s) h = rw h

end_cons-Starts : (c : ℕ) (t : Text) → is_whitespace c ≡ false → Starts (end_cons c t)
end_cons-Starts c [] h = rw h h
end_cons-Starts c (x ∷ t) h = h

trim_end-Starts : (s : Text) → Starts s → Starts (trim_end s)
unfolding trim_end
trim_end-Starts [] h = tt
trim_end-Starts (c ∷ s) h = end_cons-Starts c (trim_end s) h

trim_end-end_cons : (c : ℕ) (t : Text) → trim_end t ≡ t → trim_end (end_cons c t) ≡ end_cons c t
unfolding trim_end
trim_end-end_cons c [] h = elim (Bool-cases (is_whitespace c)) [
  | inl e ↦ rw e
  | inr e ↦ rw e (rw e)
]
trim_end-end_cons c (x ∷ t) h = ap (end_cons c) h

trim_end_idem : (s : Text) → trim_end (trim_end s) ≡ trim_end s
unfolding trim_end
trim_end_idem [] = refl
trim_end_idem (c ∷ s) = trim_end-end_cons c (trim_end s) (trim_end_idem s)

pub trim_idem : (s : Text) → trim (trim s) ≡ trim s
unfolding trim
trim_idem s = rw (trim_start_of_Starts _ (trim_end-Starts _ (trim_start-Starts s)), trim_end_idem)

-- White space round a command line makes no difference to the request that is read.
pub parse-trim : (p : CommandParser) (line : Text) → parse p (trim line) ≡ parse p line
unfolding parse
parse-trim p line = rw trim_idem
