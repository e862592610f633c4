-- ===== src/Pipeline/Serve.antt =====
-- `Serve` of inc/pipeline/serve.h and inc/pipeline/serve.hpp. A lock owns the mutex until its owner is
-- destroyed, so what the other side does comes before or after; a wait for the flag that cannot go on
-- is `none`. `Flush` is left out: it does not compile, `ServeLock` has no default constructor.
pub mod Once
use steam_deck_gyro_dsu_exte.Base.{
  ℕ, Bool, true, false, not, List, [], ◌∷◌, Option, none, some, if◌then◌else◌,
}

-- `object` is the pointer to the buffer that is served, if one is set.
pub record Serve (T : Type 0) : Type 0 where
  pub object : Option T
  pub served : Bool

-- A `ConsumeLock` or a `ServeLock`, whose references all go to the one `Serve`.
pub record Lock : Type 0 where
  pub moved : Bool

-- The move constructors: the new lock and what is left of the old one. That of `ConsumeLock` leaves
-- `moved` as the memory held it.
move_consume_lock : Bool → Lock → Lock × Lock
move_consume_lock memory other = (record { moved = memory }, record other { moved = true })

move_serve_lock : Lock → Lock × Lock
move_serve_lock other = (record { moved = false }, record other { moved = true })

module _ {T : Type 0} where
  unfoldable pub new_serve : Option T → Serve T
  new_serve object = record { object = object; served = false }

  set_object : T → Serve T → Serve T
  set_object o s = record s { object = some o }

  is_object_set : Serve T → Bool
  is_object_set s = elim s.object [ none ↦ false | some o ↦ true ]

  pub get_pointer : Serve T → Option T
  get_pointer s = s.object

  -- The constructor of `ConsumeLock`, which waits.
  consume_lock : Serve T → Option (Serve T × Lock)
  consume_lock s =
      if s.served then some (record s { served = false }, record { moved = false }) else none

  -- The destructors.
  unfoldable pub drop_consume_lock : Lock → Serve T → Serve T
  drop_consume_lock l s = if l.moved then s else record s { served = false }

  unfoldable pub drop_serve_lock : Lock → Serve T → Serve T
  drop_serve_lock l s = if l.moved then s else record s { served = true }

  -- The lock that is returned is moved out of a temporary, which is then destroyed.
  unfoldable pub get_consume_lock : Bool → Serve T → Option (Serve T × Lock)
  unfolding consume_lock move_consume_lock drop_consume_lock
  get_consume_lock memory s = elim (consume_lock s) [
    | none ↦ none
    | some (s', temporary) ↦
        let (lock, rest) = move_consume_lock memory temporary in
        some (drop_consume_lock rest s', lock)
  ]

  unfoldable pub get_serve_lock : Serve T → Serve T × Lock
  unfolding move_serve_lock drop_serve_lock
  get_serve_lock s =
      let (lock, rest) = move_serve_lock (record { moved = false }) in
      (drop_serve_lock rest s, lock)

  unfoldable pub was_consumed_no_lock : Serve T → Bool
  was_consumed_no_lock s = not s.served

  was_consumed : Serve T → Bool
  unfolding was_consumed_no_lock
  was_consumed s = was_consumed_no_lock s
