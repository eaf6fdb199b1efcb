-- ===== src/Lifecycle/Options/Reading.antt =====
-- What the texts of the options read as, for `ToILMRule` of cmd/ilm/options.go.
use mathlib.Core.Path.{subst}
use oss_mc.Base.{
  ℕ, Bool, false, [], Option, none, some, ◌≡◌, ◌≢◌, ◌↔◌, refl, sym, arith, Bytes, Fallible, ok,
  >>=-ok,
}
use oss_mc.Lifecycle.{Expiration, Transition}
use oss_mc.Lifecycle.Options.{
  or_else, read_if_set, parse_expiry_days, parse_transition_days, parse_expiry_date,
  parse_transition_date, parse_expiry, parse_transition,
}
use oss_mc.Lifecycle.Validation.{LifecycleError}
use oss_mc.Strings.Numbers.{atoi}

pub ok_same : {A : Type 0} {r s : A} → ◌≡◌ {A = Fallible LifecycleError A} (ok r) (ok s) → r ≡ s
ok_same h = cc

-- A field that is 0 where no text is given, and otherwise what the text reads as.
abbrev pub ReadsAs : (Bytes → Option ℕ) → Option Bytes → ℕ → Type 0
ReadsAs read none n = n ≡ 0
ReadsAs read (some text) n = read text ≡ some n

-- The same for a text that must not read as 0.
abbrev pub ReadsAsPositive : (Bytes → Option ℕ) → Option Bytes → ℕ → Type 0
ReadsAsPositive read none n = n ≡ 0
ReadsAsPositive read (some text) n = (read text ≡ some n) × (n ≢ 0)

-- Days count only where no date is given.
abbrev pub DaysOf : Option Bytes → Option Bytes → ℕ → Type 0
DaysOf (some date) days n = n ≡ 0
DaysOf none days n = ReadsAs atoi days n

expiry_days_iff :
    (text : Option Bytes) (n : ℕ)
    → (read_if_set parse_expiry_days text ≡ ok n) ↔ ReadsAsPositive atoi text n
unfolding parse_expiry_days
expiry_days_iff none n = (λ h. ground (arith, h), λ h. ground (arith, h))
expiry_days_iff (some text) n =
    (λ h. (ground (arith, h), λ z. ground (arith, h, z)), λ h. ground (arith, h.0, h.1))

transition_days_iff :
    (text : Option Bytes) (n : ℕ)
    → (read_if_set parse_transition_days text ≡ ok n) ↔ ReadsAs atoi text n
unfolding parse_transition_days
transition_days_iff none n = (λ h. ground (arith, h), λ h. ground (arith, h))
transition_days_iff (some text) n = (λ h. ground (arith, h), λ h. ground (arith, h))

module _ (parse_date : Bytes → Option ℕ) where
  expiry_date_iff :
      (text : Option Bytes) (n : ℕ)
      → (read_if_set (parse_expiry_date parse_date) text ≡ ok n) ↔ ReadsAsPositive parse_date text n
  unfolding parse_expiry_date
  expiry_date_iff none n = (λ h. ground (arith, h), λ h. ground (arith, h))
  expiry_date_iff (some text) n =
      (λ h. (ground (arith, h), λ z. ground (arith, h, z)), λ h. ground (arith, h.0, h.1))

  transition_date_iff :
      (text : Bytes) (n : ℕ)
      → (parse_transition_date parse_date text ≡ ok n) ↔ (parse_date text ≡ some n)
  unfolding parse_transition_date
  transition_date_iff text n = (λ h. ground (arith, h), λ h. ground (arith, h))

  -- An expiration as its texts and its flag say: a date and days that are given are not 0.
  abbrev pub Expires : Option Bytes → Option Bytes → Option Bool → Expiration → Type 0
  Expires date days marker e =
      ReadsAsPositive parse_date date e.date
      × ReadsAsPositive atoi days e.days
      × (e.delete_marker ≡ or_else false marker)

  pub parse_expiry_iff :
      (date days : Option Bytes) (marker : Option Bool) (e : Expiration)
      → (parse_expiry parse_date date days marker ≡ ok e) ↔ Expires date days marker e
  unfolding parse_expiry
  parse_expiry_iff date days marker e = (
    λ h.
        let (d, (hd, h1)) = >>=-ok _ (read_if_set (parse_expiry_date parse_date) date) h in
        let (n, (hn, h2)) = >>=-ok _ (read_if_set parse_expiry_days days) h1 in
        subst (Expires date days marker) (ok_same h2)
          ((expiry_date_iff date d).0 hd, (expiry_days_iff days n).0 hn, refl),
    λ (hd, hn, hm).
        rw ((expiry_date_iff date e.date).1 hd, (expiry_days_iff days e.days).1 hn, sym hm) refl,
  )

  -- A transition as its texts say.
  abbrev pub Moves : Option Bytes → Option Bytes → Option Bytes → Transition → Type 0
  Moves class date days t =
      ReadsAs parse_date date t.date
      × DaysOf date days t.days
      × (t.storage_class ≡ or_else [] class)

  pub parse_transition_iff :
      (class date days : Option Bytes) (t : Transition)
      → (parse_transition parse_date class date days ≡ ok t) ↔ Moves class date days t
  unfolding parse_transition
  parse_transition_iff class (some date) days t = (
    λ h.
        let (d, (hd, h1)) = >>=-ok _ (parse_transition_date parse_date date) h in
        subst (Moves class (some date) days) (ok_same h1)
          ((transition_date_iff date d).0 hd, refl, refl),
    λ (hd, hn, hc). rw ((transition_date_iff date t.date).1 hd, sym hn, sym hc) refl,
  )
  parse_transition_iff class none days t = (
    λ h.
        let (n, (hn, h1)) = >>=-ok _ (read_if_set parse_transition_days days) h in
        subst (Moves class none days) (ok_same h1) (refl, (transition_days_iff days n).0 hn, refl),
    λ (hd, hn, hc). rw ((transition_days_iff days t.days).1 hn, sym hd, sym hc) refl,
  )
