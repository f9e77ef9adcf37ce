-- ===== src/Probe/Redact/Secrecy.antt =====
-- What Redact of internal/probe/session.go keeps from a reader of its result.
use is_ntust_down.Prelude.{
  ℕ, ◌≡◌, refl, sym, ap, ◌∙◌, Bool, true, List, [], ◌∷◌, ◌++◌, ◌&&◌, ◌==◌, Text, all_by, arith,
  Bool-cases, inl, inr, if◌then◌else◌,
}
use is_ntust_down.Probe.Redact.{
  is_value, ends_in_name, starts_value, Mode, reading, hiding, opens, emitted, next_mode,
  redact_from, redact, stars,
}

-- what stands before, read backwards since the last character that no value holds
abbrev pub before_end : List ℕ → Text → List ℕ
before_end before [] = before
before_end before (c ∷ s) = before_end (if is_value c then c ∷ before else []) s

-- whether a name stands at the end, for a reader in a mode
abbrev IsNamed : Mode → Text → Type 0
IsNamed (reading before) a = ends_in_name (before_end before a) ≡ true
IsNamed hiding a = (before : List ℕ) × (ends_in_name (before_end before a) ≡ true)

redact_from-hiding :
    (v rest : Text)
    → all_by is_value v ≡ true
    → redact_from hiding (v ++ rest) ≡ redact_from hiding rest
unfolding redact_from
redact_from-hiding [] rest h = refl
redact_from-hiding (c ∷ v) rest h = elim (Bool-cases (is_value c)) [
  | inl e ↦ rw e (redact_from-hiding v rest (ground (arith, h, e)))
  | inr e ↦ ground (arith, h, e)
]

IsNamed-next_mode :
    (mode : Mode) (c : ℕ) (a s : Text) → IsNamed mode (c ∷ a) → IsNamed (next_mode mode c s) a
IsNamed-next_mode (reading before) c a s h = elim (Bool-cases (opens before c s)) [
  | inl e ↦ rw e (_, h)
  | inr e ↦ rw e h
]
IsNamed-next_mode hiding c a s (before, h) = elim (Bool-cases (is_value c)) [
  | inl e ↦ rw e (c ∷ before, (rw e at h))
  | inr e ↦ rw e (rw e at h)
]

-- One look ahead sees no difference behind an equals sign that is followed by a value.
starts_value-append :
    (a v w rest : Text)
    → starts_value (a ++ b'=' ∷ (v ++ rest)) ≡ starts_value (a ++ b'=' ∷ (w ++ rest))
starts_value-append [] v w rest = refl
starts_value-append (c ∷ a) v w rest = refl

opens-append :
    (before : List ℕ) (c : ℕ) (a v w rest : Text)
    → opens before c (a ++ b'=' ∷ (v ++ rest)) ≡ opens before c (a ++ b'=' ∷ (w ++ rest))
opens-append before c a v w rest =
    ap (λ (b : Bool). c == b'=' && ends_in_name before && b) (starts_value-append a v w rest)

emitted-append :
    (mode : Mode) (c : ℕ) (a v w rest : Text)
    → emitted mode c (a ++ b'=' ∷ (v ++ rest)) ≡ emitted mode c (a ++ b'=' ∷ (w ++ rest))
emitted-append (reading before) c a v w rest = rw (opens-append before c a v w rest) refl
emitted-append hiding c a v w rest = refl

next_mode-append :
    (mode : Mode) (c : ℕ) (a v w rest : Text)
    → next_mode mode c (a ++ b'=' ∷ (v ++ rest)) ≡ next_mode mode c (a ++ b'=' ∷ (w ++ rest))
next_mode-append (reading before) c a v w rest = rw (opens-append before c a v w rest) refl
next_mode-append hiding c a v w rest = refl

-- a secret: a value of one character at least
abbrev pub IsSecret : Text → Type 0
IsSecret v = (starts_value v ≡ true) × (all_by is_value v ≡ true)

starts_value-secret : (v rest : Text) → starts_value v ≡ true → starts_value (v ++ rest) ≡ true
starts_value-secret [] rest h = cc
starts_value-secret (c ∷ v) rest h = h

redact_from-value :
    (mode : Mode) (v w rest : Text)
    → IsNamed mode []
    → IsSecret v
    → IsSecret w
    → redact_from mode (b'=' ∷ (v ++ rest)) ≡ redact_from mode (b'=' ∷ (w ++ rest))
unfolding redact_from is_value
redact_from-value (reading before) v w rest n h k =
    rw (n, starts_value-secret v rest h.0, starts_value-secret w rest k.0)
      (ap (λ (t : Text). b'=' ∷ stars ++ t)
        (redact_from-hiding v rest h.1 ∙ sym (redact_from-hiding w rest k.1)))
redact_from-value hiding v w rest n h k =
    redact_from-hiding v rest h.1 ∙ sym (redact_from-hiding w rest k.1)

redact_from-secret :
    (mode : Mode) (a v w rest : Text)
    → IsNamed mode a
    → IsSecret v
    → IsSecret w
    → redact_from mode (a ++ b'=' ∷ (v ++ rest)) ≡ redact_from mode (a ++ b'=' ∷ (w ++ rest))
unfolding redact_from
redact_from-secret mode [] v w rest n h k = redact_from-value mode v w rest n h k
redact_from-secret mode (c ∷ a) v w rest n h k =
    let after = a ++ b'=' ∷ (w ++ rest) in
    let next = next_mode mode c after in
    rw (emitted-append mode c a v w rest, next_mode-append mode c a v w rest)
      (ap (λ (t : Text). emitted mode c after ++ t)
        (redact_from-secret next a v w rest (IsNamed-next_mode mode c a after n) h k))

-- Redact shows nothing of a secret: where a name stands at a word boundary and an equals sign follows
-- it, two texts that differ in the value alone are redacted to the same text.
pub redact-secret :
    (a v w rest : Text)
    → ends_in_name (before_end [] a) ≡ true
    → IsSecret v
    → IsSecret w
    → redact (a ++ b'=' ∷ (v ++ rest)) ≡ redact (a ++ b'=' ∷ (w ++ rest))
unfolding redact
redact-secret a v w rest n h k = redact_from-secret (reading []) a v w rest n h k
