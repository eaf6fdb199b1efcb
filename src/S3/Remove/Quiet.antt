-- ===== src/S3/Remove/Quiet.antt =====
-- The events of `Remove` in cmd/client-s3.go that neither open a batch nor send to one.
use oss_mc.Base.{
  Bool, true, false, List, [], ◌∷◌, ◌++◌, Option, none, some, Bytes, map, ◌≡◌, refl, sym, ap, ◌∙◌,
  inl, inr, Option-cases, append_assoc, append-nil, none_ne_some,
}
use oss_mc.Rm.{RemoveResult}
use oss_mc.S3.Remove.{
  Event, opens, sends, closes, reports, removes_bucket, forces, RemoveEnd, then_events, labelled,
  close_if,
}

-- what is sent, each object with the bucket of the batch that it is sent to
abbrev pub dispatched : Bytes → List Event → List (Bytes × Bytes × Bytes)
dispatched b [] = []
dispatched b (opens bucket ∷ es) = dispatched bucket es
dispatched b (sends name version ∷ es) = (b, name, version) ∷ dispatched b es
dispatched b (closes ∷ es) = dispatched b es
dispatched b (reports r ∷ es) = dispatched b es
dispatched b (removes_bucket x ∷ es) = dispatched b es
dispatched b (forces x y ∷ es) = dispatched b es

-- events that neither open a batch nor send_of to one
abbrev pub IsQuiet : List Event → Type 0
IsQuiet es = (b : Bytes) (rest : List Event) → dispatched b (es ++ rest) ≡ dispatched b rest

pub IsQuiet-append : (es fs : List Event) → IsQuiet es → IsQuiet fs → IsQuiet (es ++ fs)
IsQuiet-append es fs h k b rest =
    ap (dispatched b) (append_assoc es fs rest) ∙ h b (fs ++ rest) ∙ k b rest

pub behind_quiet :
    (es fs : List Event) (b : Bytes) (rest : List Event)
    → IsQuiet es
    → dispatched b ((es ++ fs) ++ rest) ≡ dispatched b (fs ++ rest)
behind_quiet es fs b rest h = ap (dispatched b) (append_assoc es fs rest) ∙ h b (fs ++ rest)

pub IsQuiet-nothing : (es : List Event) (b : Bytes) → IsQuiet es → dispatched b es ≡ []
IsQuiet-nothing es b h = ap (dispatched b) (sym (append-nil es)) ∙ h b []

pub IsQuiet-close_if : (o : Bool) → IsQuiet (close_if o)
IsQuiet-close_if true b rest = refl
IsQuiet-close_if false b rest = refl

pub then_none :
    (p : List Event × Option RemoveEnd) (next : List Event × RemoveEnd)
    → p.1 ≡ none
    → then_events p next ≡ (p.0 ++ next.0, next.1)
then_none (es, none) next h = refl
then_none (es, some x) next h = absurd (none_ne_some (sym h))

pub IsQuiet-labelled :
    (bucket : Bytes) (rs : List RemoveResult) → IsQuiet (map (labelled bucket) rs)
IsQuiet-labelled bucket [] b rest = refl
IsQuiet-labelled bucket (r ∷ rs) b rest = elim (Option-cases r.err) [
  | inl n ↦ rw n (IsQuiet-labelled bucket rs b rest)
  | inr (e, h) ↦ rw h (IsQuiet-labelled bucket rs b rest)
]
