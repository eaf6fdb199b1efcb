-- ===== src/ObjectLock/Seen.antt =====
-- The entries of a listing that the loops of cmd/retention-common.go and cmd/legalhold-set.go come to.
use oss_mc.Base.{Bool, true, false, List, [], ◌∷◌, none, some, if◌then◌else◌}
use oss_mc.Content.{ClientContent}
use oss_mc.ObjectLock.{LockCall, call_of}

abbrev pub has_error : ClientContent → Bool
has_error c = elim c.err [ none ↦ false | some e ↦ true ]

-- The entries in front of the first one that stops the loop.
abbrev pub before : (ClientContent → Bool) → List ClientContent → List ClientContent
before stops [] = []
before stops (c ∷ cs) = if stops c then [] else c ∷ before stops cs

abbrev pub calls_of : List ClientContent → List LockCall
calls_of [] = []
calls_of (c ∷ cs) = call_of c ∷ calls_of cs
