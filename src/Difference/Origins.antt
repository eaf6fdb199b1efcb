-- ===== src/Difference/Origins.antt =====
-- `activeActiveModTimeUpdated`
use Prim.Native.Nat.{max}
use oss_mc.Base.{ℕ, false, Option, none, some, ◌≡◌, ◌≢◌, ◌⊎◌, arith, Bytes, ltb}
use oss_mc.Content.{ClientContent}
use oss_mc.Difference.{
  active_active_mod_time_updated, origins_updated, parse_origin, get_source_mod_time_key,
}

module _ (parse_time : Bytes → Option ℕ) where
  -- The time that the metadata of an object gives as its origin: zero if it gives none, and none
  -- if it cannot be read.
  abbrev origin : ClientContent → Option ℕ
  origin c = parse_origin parse_time (get_source_mod_time_key c.user_metadata)

  -- With both times set and both origins read, the copy in the target is out of date exactly when
  -- the later of the target's time and origin is before the later of the source's.
  active_active_mod_time_updated_lem :
      (src dst : ClientContent) (s d : ℕ)
      → src.time ≢ 0
      → dst.time ≢ 0
      → origin src ≡ some s
      → origin dst ≡ some d
      → active_active_mod_time_updated parse_time src dst ≡ ltb (max dst.time d) (max src.time s)
  unfolding active_active_mod_time_updated origins_updated parse_origin
  active_active_mod_time_updated_lem src dst s d hs hd os od = ground arith

  -- A time that is not set, or an origin that cannot be read, never makes the source newer.
  active_active_mod_time_updated_refuses :
      (src dst : ClientContent)
      → ((src.time ≡ 0) ⊎ (dst.time ≡ 0)) ⊎ ((origin src ≡ none) ⊎ (origin dst ≡ none))
      → active_active_mod_time_updated parse_time src dst ≡ false
  unfolding active_active_mod_time_updated origins_updated parse_origin
  active_active_mod_time_updated_refuses src dst h = ground arith
