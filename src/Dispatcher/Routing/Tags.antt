-- ===== src/Dispatcher/Routing/Tags.antt =====
-- The tags that the routing puts on an exception that it raises on.
use mathlib.Core.Path.{subst}
use chattice.Base.{◌≡◌, refl, sym, ◌∙◌, arith, String, Bool, true, false, Option, none, some}
use chattice.Exceptions.{Failure, ExceptionClass, Stage, filter_stage, middleware_stage}
use chattice.Dispatcher.Scope.{attach_failure_context}
use chattice.Dispatcher.Routing.{unless_staged}

-- An exception that is raised on with the stage where it escaped, unless it takes no tag.
abbrev pub Marked : Stage → (takes_stage : Bool) → Failure → Failure → Type 0
Marked stage true f g = (g.class ≡ f.class) × (g.stage ≡ some stage)
Marked stage false f g = (g.class ≡ f.class) × (g.stage ≡ f.stage)

-- An exception that has a stage is raised on as it is; else it came out of a middleware.
abbrev pub Escaped : Option Stage → Failure → Failure → Type 0
Escaped (some stage) f g = g ≡ f
Escaped none f g = Marked middleware_stage f.takes_stage f g

attach_failure_context-fields :
    (stage : Stage) (name : Option String) (class : ExceptionClass)
    (takes_stage takes_handler : Bool) (tag : Option Stage) (handler : Option String)
    → let f : Failure = record {
      class = class;
      takes_stage = takes_stage;
      takes_handler = takes_handler;
      stage = tag;
      handler = handler;
    } in
      Marked stage takes_stage f (attach_failure_context stage name f)
      × ((attach_failure_context stage name f).takes_stage ≡ takes_stage)
unfolding attach_failure_context
attach_failure_context-fields stage none class true b tag handler = ((refl, refl), refl)
attach_failure_context-fields stage none class false b tag handler = ((refl, refl), refl)
attach_failure_context-fields stage (some name) class true true tag handler = ((refl, refl), refl)
attach_failure_context-fields stage (some name) class true false tag handler = ((refl, refl), refl)
attach_failure_context-fields stage (some name) class false true tag handler = ((refl, refl), refl)
attach_failure_context-fields stage (some name) class false false tag handler = ((refl, refl), refl)

pub attach_failure_context-Marked :
    (stage : Stage) (name : Option String) (f : Failure)
    → Marked stage f.takes_stage f (attach_failure_context stage name f)
      × ((attach_failure_context stage name f).takes_stage ≡ f.takes_stage)
attach_failure_context-Marked stage name f =
    attach_failure_context-fields stage name f.class f.takes_stage f.takes_handler f.stage f.handler

pub unless_staged-Escaped :
    (tag : Option Stage) (name : String) (f : Failure) → Escaped tag f (unless_staged tag name f)
unless_staged-Escaped (some stage) name f = refl
unless_staged-Escaped none name f = (attach_failure_context-Marked middleware_stage (some name) f).0

-- An exception out of a candidate's filters is tagged there, and passes the later test as it is.
pub filtered-Marked :
    (tag : Option Stage) (takes_stage : Bool) (f g h : Failure)
    → g.stage ≡ tag
    → g.takes_stage ≡ takes_stage
    → Marked filter_stage takes_stage f g
    → Escaped tag g h
    → Marked filter_stage takes_stage f h
filtered-Marked (some stage) takes_stage f g h at_ k m e =
    subst (Marked filter_stage takes_stage f) (sym e) m
filtered-Marked none true f g h at_ k (same, m) e = absurd (ground (arith, at_, m))
filtered-Marked none false f g h at_ k (same, m) e =
    let (like, stage) = subst (λ b. Marked middleware_stage b g h) k e in (like ∙ same, stage ∙ m)
