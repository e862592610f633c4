-- ===== src/Pipeline/Serve/Once.antt =====
-- How often what is served through inc/pipeline/serve.hpp is consumed.
use steam_deck_gyro_dsu_exte.Base.{
  ℕ, suc, ◌+◌, ◌≤◌, ◌≡◌, arith, Bool, true, false, List, [], ◌∷◌, Option, none, some, if◌then◌else◌,
}
use steam_deck_gyro_dsu_exte.Pipeline.Serve.{
  Serve, new_serve, get_consume_lock, drop_consume_lock, get_serve_lock, drop_serve_lock,
}

module _ {T : Type 0} where
  -- A consumer takes the lock and lets go of it, over memory that holds `memory`.
  pub consume : Bool → Serve T → Option (Serve T)
  consume memory s = elim (get_consume_lock memory s) [
    | none ↦ none
    | some (s', lock) ↦ some (drop_consume_lock lock s')
  ]

  pub serve : Serve T → Serve T
  serve s = let (s', lock) = get_serve_lock s in drop_serve_lock lock s'

  -- The member that the move constructor of `ConsumeLock` forgets does no harm: a consumer waits until
  -- something is served, and leaves it consumed, whatever the memory held; a lock to serve leaves it
  -- served.
  consume-memory :
      (memory : Bool) (s : Serve T)
      → (consume memory s ≡ (if s.served then some (record s { served = false }) else none))
        × (serve s ≡ record s { served = true })
  unfolding consume serve get_consume_lock drop_consume_lock get_serve_lock drop_serve_lock
  consume-memory true s = ground arith
  consume-memory false s = ground arith

-- What the two sides do: serve, or look whether something is to be consumed.
pub data Visit : Type 0 where
  serves : Visit
  consumes : Bool → Visit

serves_of : List Visit → ℕ
serves_of [] = 0
serves_of (serves ∷ vs) = suc (serves_of vs)
serves_of (consumes memory ∷ vs) = serves_of vs

abbrev one_if : Bool → ℕ
one_if true = 1
one_if false = 0

module _ {T : Type 0} where
  -- The visits at which something was consumed.
  pub consumed : List Visit → Serve T → ℕ
  consumed [] s = 0
  consumed (serves ∷ vs) s = consumed vs (serve s)
  consumed (consumes memory ∷ vs) s = elim (consume memory s) [
    | none ↦ consumed vs s
    | some s' ↦ suc (consumed vs s')
  ]

  consumed_bound : (vs : List Visit) (s : Serve T) → consumed vs s ≤ serves_of vs + one_if s.served
  unfolding consumed serves_of
  consumed_bound [] s = omega arith
  consumed_bound (serves ∷ vs) s =
      rw ((consume-memory true s).1, consumed)
        (omega (arith, consumed_bound vs (record s { served = true })))
  consumed_bound (consumes memory ∷ vs) s = ground (
    arith,
    (consume-memory memory s).0,
    consumed_bound vs s,
    consumed_bound vs (record s { served = false }),
  )

  -- Nothing is consumed twice: over any run of either side's visits, no more is consumed than was
  -- served in them.
  consumed-serves_of :
      (vs : List Visit) (object : Option T) → consumed vs (new_serve object) ≤ serves_of vs
  unfolding new_serve
  consumed-serves_of vs object = omega (arith, consumed_bound vs (new_serve object))
