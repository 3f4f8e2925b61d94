-- ===== src/Lifespan/Cleanup.antt =====
-- Which resources are closed, and when.
use chattice.Base.{
  ◌≡◌, refl, ap, sym, ◌∙◌, Bool, true, false, Option, none, some, List, [], ◌∷◌, ◌++◌,
}
use mathlib.Core.List.{append-nil, append_assoc}
use chattice.Exceptions.{Raised}
use chattice.Effects.{Try, returned, raised}
use chattice.Dispatcher.Middleware.{reversed}
use chattice.Lifespan.{
  Resource, Lifespan, roll_back, append_error, close_all, abandon, after_start, start_all,
  enter_unless, enter, surfaced, exit,
}

abbrev pub or_later : Try Unit → Option Raised → Option Raised
or_later (returned u) later = later
or_later (raised r) later = some r

-- What a shutdown raises: nothing while an exception is on its way.
abbrev pub unless_dirty : (clean : Bool) → Option Raised → Try Unit
unless_dirty clean none = returned tt
unless_dirty true (some r) = raised r
unless_dirty false (some r) = returned tt

abbrev first_of : List Raised → Option Raised
first_of [] = none
first_of (r ∷ errors) = some r

surfaced-lem :
    (errors : List Raised) (clean : Bool)
    → surfaced errors clean ≡ unless_dirty clean (first_of errors)
unfolding surfaced
surfaced-lem [] true = refl
surfaced-lem [] false = refl
surfaced-lem (r ∷ errors) true = refl
surfaced-lem (r ∷ errors) false = refl

abbrev or_first : Option Raised → Option Raised → Option Raised
or_first none later = later
or_first (some r) later = some r

first_of-append :
    (t : Try Unit) (errors : List Raised) (later : Option Raised)
    → or_first (first_of (append_error t errors)) later
      ≡ or_first (first_of errors) (or_later t later)
unfolding append_error
first_of-append (returned u) errors later = refl
first_of-append (raised r) [] later = refl
first_of-append (raised r) (x ∷ errors) later = refl

or_first-none : (o : Option Raised) → or_first o none ≡ o
or_first-none none = refl
or_first-none (some r) = refl

module _ {W : Type 0} where
  -- `Starts rs w v`: the resources start in their order, and take the world from `w` to `v`.
  pub data Starts : List (Resource W) → W → W → Type 0 where
    no_more : {w : W} → Starts [] w w
    then_next :
        {r : Resource W} {rs : List (Resource W)} {w v : W}
        → (r.start w).0 ≡ returned tt
        → Starts rs (r.start w).1 v
        → Starts (r ∷ rs) w v

  -- `Closes rs w v`: each of the resources is closed once, in their order, whatever it raises, and the world
  -- goes from `w` to `v`.
  pub data Closes : List (Resource W) → W → W → Type 0 where
    all_closed : {w : W} → Closes [] w w
    close_then :
        {r : Resource W} {rs : List (Resource W)} {w v : W}
        → Closes rs (r.close w).1 v
        → Closes (r ∷ rs) w v

  roll_back-Closes : (rs : List (Resource W)) (w : W) → Closes rs w (roll_back rs w)
  unfolding roll_back
  roll_back-Closes [] w = all_closed
  roll_back-Closes (r ∷ rs) w = close_then (roll_back-Closes rs (r.close w).1)

  start_all-failing :
      {before : List (Resource W)} {w v : W} (resource : Resource W)
      (after started : List (Resource W)) (closed : Bool) (x : Raised)
      → Starts before w v
      → (resource.start v).0 ≡ raised x
      → start_all
          (before ++ resource ∷ after)
          (record { started = started; closed = closed; world = w })
        ≡ abandon x
            (record { started = started ++ before; closed = closed; world = (resource.start v).1 })
  unfolding start_all after_start
  start_all-failing {w = w} resource after started closed x no_more h =
      ap
        (λ r.
          after_start resource (start_all after) r
            (record { started = started; closed = closed; world = (resource.start w).1 }))
        h
      ∙ ap (λ l. abandon x (record { started = l; closed = closed; world = (resource.start w).1 }))
          (sym (append-nil started))
  start_all-failing {w = w} {v = v} resource after started closed x (then_next {r} {rs} k s) h =
      ap
        (λ t.
          after_start r (start_all (rs ++ resource ∷ after)) t
            (record { started = started; closed = closed; world = (r.start w).1 }))
        k
      ∙ start_all-failing resource after (started ++ r ∷ []) closed x s h
      ∙ ap (λ l. abandon x (record { started = l; closed = closed; world = (resource.start v).1 }))
          (append_assoc started (r ∷ []) rs)

  -- When the resources before one start and that one's start raises, entering a fresh lifespan raises
  -- the same, after it has closed those before it in reverse order, whatever their closers raise; the
  -- failing resource and those after it are not closed, and none is left as started.
  pub enter-failing :
      {before : List (Resource W)} {w v : W} (resource : Resource W) (after : List (Resource W))
      (x : Raised)
      → Starts before w v
      → (resource.start v).0 ≡ raised x
      → (u : W) × Closes (reversed before) (resource.start v).1 u
        × (enter (before ++ resource ∷ after) (record { started = []; closed = false; world = w })
            ≡ (raised x, record { started = []; closed = false; world = u }))
  unfolding enter enter_unless abandon
  enter-failing {before} {v = v} resource after x s h = (
    roll_back (reversed before) (resource.start v).1,
    roll_back-Closes (reversed before) (resource.start v).1,
    start_all-failing resource after [] false x s h,
  )

  -- The first error that closing the resources in this order meets.
  abbrev pub first_error : List (Resource W) → W → Option Raised
  first_error [] w = none
  first_error (resource ∷ resources) w =
      or_later (resource.close w).0 (first_error resources (resource.close w).1)

  close_all-first :
      (resources : List (Resource W)) (errors : List Raised) (w : W)
      → first_of (close_all resources errors w).0
        ≡ or_first (first_of errors) (first_error resources w)
  unfolding close_all
  close_all-first [] errors w = sym (or_first-none (first_of errors))
  close_all-first (r ∷ rs) errors w =
      close_all-first rs (append_error (r.close w).0 errors) (r.close w).1
      ∙ first_of-append (r.close w).0 errors (first_error rs (r.close w).1)

  close_all-world :
      (resources : List (Resource W)) (errors : List Raised) (w : W)
      → (close_all resources errors w).1 ≡ roll_back resources w
  unfolding close_all roll_back
  close_all-world [] errors w = refl
  close_all-world (r ∷ rs) errors w =
      close_all-world rs (append_error (r.close w).0 errors) (r.close w).1

  -- Leaving a lifespan closes every started resource in reverse order, whatever the closers raise,
  -- leaves none as started and marks the lifespan as used. A clean exit then raises the first error of
  -- the closers; while an exception is on its way, their errors are passed over.
  pub exit-closes :
      (clean : Bool) (l : Lifespan W)
      → exit clean l ≡ (
        unless_dirty clean (first_error (reversed l.started) l.world),
        record { started = []; closed = true; world = roll_back (reversed l.started) l.world },
      )
  unfolding exit
  exit-closes clean l =
      ap
        (λ w. (
          surfaced (close_all (reversed l.started) [] l.world).0 clean,
          record { started = []; closed = true; world = w },
        ))
        (close_all-world (reversed l.started) [] l.world)
      ∙ ap
          (λ t. (
            t,
            record { started = []; closed = true; world = roll_back (reversed l.started) l.world },
          ))
          (surfaced-lem (close_all (reversed l.started) [] l.world).0 clean
            ∙ ap (unless_dirty clean) (close_all-first (reversed l.started) [] l.world))
