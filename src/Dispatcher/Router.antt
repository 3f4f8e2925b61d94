-- ===== src/Dispatcher/Router.antt =====
-- src/chattice/dispatcher/router.py and observer.py: the tree of routers and the walk over it.
use chattice.Base.{String, List, [], ◌∷◌, ◌++◌}
use chattice.Dispatcher.Filters.{Filter}
use chattice.Dispatcher.Handler.{Handler}
use chattice.Dispatcher.Middleware.{Middleware}

-- The names of a router's observers.
pub data ObserverName : Type 0 where
  message_observer action_observer command_observer slash_command_observer : ObserverName
  quick_command_observer message_action_observer added_to_space_observer : ObserverName
  removed_from_space_observer widget_updated_observer app_home_observer : ObserverName
  form_submit_observer dialog_submit_observer dialog_cancel_observer : ObserverName
  event_observer unknown_event_observer error_observer : ObserverName

-- `EventObserver`: its common filters, and its handlers in the order of registration.
pub record Observer (W V R : Type 0) : Type 0 where
  pub filters : List (Filter W V)
  pub handlers : List (Handler W V R)

-- A router without its children; a missing observer is one on which nothing is registered.
pub record Node (W V R : Type 0) : Type 0 where
  pub name : String
  pub observer : ObserverName → Observer W V R
  pub middleware : List (Middleware W V R)

-- A router, and a list of child routers in the order of inclusion.
pub data Shape : Type 0 where
  one many : Shape

pub data Tree (N : Type 0) : Shape → Type 0 where
  router : N → Tree N many → Tree N one
  leaf : Tree N many
  child : Tree N one → Tree N many → Tree N many

abbrev pub Router : Type 0 → Type 0 → Type 0 → Type 0
Router W V R = Tree (Node W V R) one

-- A router that the walk yields, with the middleware that applies there.
abbrev pub Visit : Type 0 → Type 0 → Type 0 → Type 0
Visit W V R = Node W V R × List (Middleware W V R)

module _ {W V R : Type 0} where
  -- `_walk`, on a router and on the loop over its children.
  unfoldable pub walk :
      {s : Shape} → List (Middleware W V R) → Tree (Node W V R) s → List (Visit W V R)
  walk inherited (router node children) =
      (node, inherited ++ node.middleware) ∷ walk (inherited ++ node.middleware) children
  walk inherited leaf = []
  walk inherited (child r rest) = walk inherited r ++ walk inherited rest
