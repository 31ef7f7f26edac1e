-- ===== src/Router.antt =====
-- router.go: which handlers get a message.
pub mod Match
pub mod Shared
pub mod Routes
pub mod Dispatch
mod Tests
use paho_mqtt_golang.Base.{
  ℕ, ◌+◌, List, [], ◌∷◌, Bytes, codes, Bool, true, false, not, ◌&&◌, ◌||◌, Option, none, some,
  if◌then◌else◌, ◌==◌, str_eq,
}
use paho_mqtt_golang.Topic.{split}

abbrev pub hash : Bytes
hash = codes "#"

abbrev pub plus : Bytes
plus = codes "+"

abbrev no_levels : List Bytes → Bool
no_levels [] = true
no_levels (_ ∷ _) = false

unfoldable pub match_levels : List Bytes → List Bytes → Bool
match_levels [] topic = no_levels topic
match_levels (r ∷ route) [] = str_eq r hash
match_levels (r ∷ route) (t ∷ topic) =
    let rest = match_levels route topic in
    if str_eq r hash then true else if str_eq r plus || str_eq r t then rest else false

-- `[]rune(topic[0])[0] == '$'`: the first rune is a dollar exactly if the first byte is.
abbrev pub begins_with_dollar : Bytes → Bool
begins_with_dollar [] = false
begins_with_dollar (c ∷ _) = c == 36

unfoldable pub is_unmatched_wildcard_filter : List Bytes → List Bytes → Bool
is_unmatched_wildcard_filter [] topic = false
is_unmatched_wildcard_filter (r ∷ _) [] = false
is_unmatched_wildcard_filter (r ∷ _) (t ∷ _) =
    if str_eq r [] || str_eq t []
    then false
    else if not (str_eq r hash) && not (str_eq r plus)
    then false
    else begins_with_dollar t

-- `strings.HasPrefix(s, prefix)`.
unfoldable pub has_prefix : Bytes → Bytes → Bool
has_prefix s [] = true
has_prefix [] (p ∷ prefix) = false
has_prefix (c ∷ s) (p ∷ prefix) = c == p && has_prefix s prefix

-- `levels[2:]`; `none` is the panic on a slice with fewer than two elements.
abbrev pub skip_two : List Bytes → Option (List Bytes)
skip_two (_ ∷ _ ∷ levels) = some levels
skip_two _ = none

abbrev pub share : Bytes
share = codes "$share"

unfoldable pub route_split : Bytes → Option (List Bytes)
route_split route = if has_prefix route share then skip_two (split route) else some (split route)

-- `none` is a panic.
unfoldable pub route_includes_topic : Bytes → Bytes → Option Bool
route_includes_topic route topic = elim (route_split route) [
  | none ↦ none
  | some splited ↦
      if is_unmatched_wildcard_filter splited (split topic)
      then some false
      else some (match_levels splited (split topic))
]

-- The method `match` of a route, by its topic.
unfoldable pub route_match : Bytes → Bytes → Option Bool
route_match route topic = if str_eq route topic then some true else route_includes_topic route topic

-- A handler is known by a number. `routes` are the topics and callbacks in the order of the list.
pub record Router : Type 0 where
  pub routes : List (Bytes × ℕ)
  pub default_handler : Option ℕ

abbrev pub new_router : Router
new_router = record { routes = []; default_handler = none }

unfoldable pub put_route : Bytes → ℕ → List (Bytes × ℕ) → List (Bytes × ℕ)
put_route topic callback [] = (topic, callback) ∷ []
put_route topic callback ((t, c) ∷ routes) =
    if str_eq t topic then (t, callback) ∷ routes else (t, c) ∷ put_route topic callback routes

unfoldable pub add_route : Bytes → ℕ → Router → Router
add_route topic callback r = record r { routes = put_route topic callback r.routes }

unfoldable pub remove_route : Bytes → List (Bytes × ℕ) → List (Bytes × ℕ)
remove_route topic [] = []
remove_route topic ((t, c) ∷ routes) =
    if str_eq t topic then routes else (t, c) ∷ remove_route topic routes

unfoldable pub delete_route : Bytes → Router → Router
delete_route topic r = record r { routes = remove_route topic r.routes }

abbrev pub set_default_handler : ℕ → Router → Router
set_default_handler handler r = record r { default_handler = some handler }

-- The loop over the routes: the callbacks of those that match. `none` is a panic.
unfoldable pub matching : List (Bytes × ℕ) → Bytes → Option (List ℕ)
matching [] topic = some []
matching ((t, c) ∷ routes) topic =
    let rest = matching routes topic in
    elim (route_match t topic) [
      | none ↦ none
      | some true ↦ elim rest [ some handlers ↦ some (c ∷ handlers) | none ↦ none ]
      | some false ↦ rest
    ]

-- `!sent` and the default handler.
abbrev pub or_default : Option ℕ → List ℕ → List ℕ
or_default (some handler) [] = handler ∷ []
or_default none [] = []
or_default _ (c ∷ handlers) = c ∷ handlers

unfoldable pub handlers_for : Router → Bytes → Option (List ℕ)
handlers_for r topic = elim (matching r.routes topic) [
  | none ↦ none
  | some handlers ↦ some (or_default r.default_handler handlers)
]

-- What the loop of `matchAndDispatch` does with a message, one after another.
pub data Event : Type 0 where
  handled : ℕ → Event
  acked : Event

-- `once` says that the message has been acknowledged: a message passes on its first `Ack` only.
unfoldable pub run_handlers : Bool → Bool → List ℕ → List Event
run_handlers auto_ack_disabled once [] = []
run_handlers auto_ack_disabled once (h ∷ handlers) = handled h ∷ elim (auto_ack_disabled || once) [
  | true ↦ run_handlers auto_ack_disabled once handlers
  | false ↦ acked ∷ run_handlers auto_ack_disabled true handlers
]

-- One message with `order`, where the handlers run in the loop itself.
unfoldable pub dispatch : Router → Bool → Bytes → Option (List Event)
dispatch r auto_ack_disabled topic = elim (handlers_for r topic) [
  | none ↦ none
  | some handlers ↦ some (run_handlers auto_ack_disabled false handlers)
]
