-- ===== src/Client/Memberships.antt =====
-- `Memberships` of src/chattice/client/resources/memberships.py.
use Prim.Native.Char.{Char}
use text.Mathlib.Text.{starts_with}
use chattice.Base.{ℕ, String, Option, none, some, if◌then◌else◌, not, ◌&&◌}
use chattice.Base.Text.{strip, is_empty}
use chattice.Capabilities.Operations.{
  AuthMode, memberships_create, memberships_get, memberships_list, memberships_delete,
}
use chattice.Capabilities.Registry.{Registry}
use chattice.Client.Names.{canonical, canonical_space, canonical_user}
use chattice.Client.Paging.{Pages}
use chattice.Client.Bot.{Client, Bot, Outcome, done, raises, rejected, ◌>>=◌}
use chattice.Client.Executor.{Response, execute}
use chattice.Client.Messages.{named, ◌>>-◌}
use chattice.Client.Spaces.{ListRequest}

-- s.removeprefix(prefix), for a text that starts with it
unfoldable pub after_prefix : (prefix s : String) → String
after_prefix String.[] s = s
after_prefix (String.◌∷◌ c prefix) String.[] = String.[]
after_prefix (String.◌∷◌ c prefix) (String.◌∷◌ d s) = after_prefix prefix s

abbrev pub prepend : Char → Option (String × String) → Option (String × String)
prepend c none = none
prepend c (some (head, tail)) = some (String.◌∷◌ c head, tail)

-- s.split(mark, 1) where the mark occurs
unfoldable pub split_once : (mark s : String) → Option (String × String)
unfolding after_prefix
split_once mark String.[] = if is_empty mark then some (String.[], String.[]) else none
split_once mark (String.◌∷◌ c s) =
    let rest = split_once mark s in
    if starts_with (String.◌∷◌ c s) mark
    then some (String.[], after_prefix mark (String.◌∷◌ c s))
    else prepend c rest

abbrev pub remove_prefix : (prefix s : String) → String
unfolding after_prefix
remove_prefix prefix s = if starts_with s prefix then after_prefix prefix s else s

unfoldable pub checked_name : (value : String) → Option (String × String) → Option String
unfolding remove_prefix
checked_name value none = none
checked_name value (some (space, member)) =
    if starts_with value "spaces/"
      && (not (is_empty (remove_prefix "spaces/" space)) && not (is_empty member))
    then some value
    else none

-- `_membership_name`; none is a `ChatAPIError`.
unfoldable pub membership_name : String → Option String
unfolding checked_name split_once
membership_name name = checked_name (strip name) (split_once "/members/" (strip name))

-- `_canonical_group`
unfoldable pub canonical_group : String → Option String
unfolding canonical
canonical_group group = canonical "groups/" (some group)

-- The membership of a request.
pub record Membership : Type 0 where
  pub member : String
  pub user_type : Option ℕ
  pub role : Option String

-- A user of a text or of a reference comes before a group.
unfoldable pub member_of :
    (user : Option (Option String))
    → (group : Option String) → (user_type : Option ℕ) → (role : Option String) → Outcome Membership
unfolding canonical_group
member_of (some user) group user_type role = named (canonical_user user) >>- λ name.
    done (record { member = name; user_type = user_type; role = role })
member_of none (some group) user_type role = named (canonical_group group) >>- λ name.
    done (record { member = name; user_type = none; role = role })
member_of none none user_type role = raises rejected

module _ {M : Type 0} (registry : Registry) (identity : AuthMode) where
  unfoldable pub create :
      (Client → String → Membership → Response M)
      → (parent : Option String) (user : Option (Option String)) (group role : Option String)
        (user_type : Option ℕ)
      → Bot
      → Outcome M × Bot
  unfolding member_of
  create send parent user group role user_type bot =
      (named (canonical_space parent), bot) >>= λ space bot1.
      (member_of user group user_type role, bot1) >>= λ membership ready.
      execute registry memberships_create identity (λ i. send i space membership) ready

  unfoldable pub get : (Client → String → Response M) → (name : String) → Bot → Outcome M × Bot
  unfolding membership_name
  get send name bot = (named (membership_name name), bot) >>= λ membership ready.
      execute registry memberships_get identity (λ i. send i membership) ready

  unfoldable pub delete : (Client → String → Response M) → (name : String) → Bot → Outcome M × Bot
  unfolding membership_name
  delete send name bot = (named (membership_name name), bot) >>= λ membership ready.
      execute registry memberships_delete identity (λ i. send i membership) ready

  -- The request is made at the call, and `fetch` runs when the pager is read.
  unfoldable pub fetch :
      {E : Type 0}
      → (Client → ListRequest → Response (Pages E M))
      → ListRequest
      → Bot
      → Outcome (Pages E M) × Bot
  fetch send request bot = execute registry memberships_list identity (λ i. send i request) bot

unfoldable pub list_request :
    (parent filter : Option String) (page_size : Option ℕ) → Outcome ListRequest
list_request parent filter page_size = named (canonical_space parent) >>- λ space.
    done (record { parent = some space; filter = filter; page_size = page_size })
