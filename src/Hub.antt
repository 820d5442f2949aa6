-- ===== src/Hub.antt =====
-- ide/hub.go: the connected clients and their send queues. The map `clients` from names to
-- pointers is kept as a mark on each client object: an object is in the map if it is marked, and
-- at most one object of a name is.
pub mod Invariant
use collaborative_ide.Prelude.{
  ℕ, Bool, true, false, not, ◌&&◌, List, [], ◌∷◌, ◌++◌, map, String, str_eq, ltb, length, keep,
  ◌==◌, if◌then◌else◌, Option, none, some,
}
use collaborative_ide.Collab.{Proposal}

-- What the server marshals: the frames of handlers.go; a relayed frame is passed on as it came.
pub data Outgoing : Type 0 where
  redirect : ℕ → Outgoing
  participants : List (String × String) → Outgoing
  proposal_add : Proposal → Outgoing
  proposal_end : String → String → Outgoing
  role_change : String → String → Outgoing
  relay : List ℕ → Outgoing

-- WSMessage
pub data WsMessage : Type 0 where
  binary : List ℕ → WsMessage
  text : Outgoing → WsMessage

-- A client object; `handle` is its address.
pub record Client : Type 0 where
  pub handle : ℕ
  pub id : String
  pub role : String
  pub code : String
  pub queue : List WsMessage
  pub closed : Bool
  pub registered : Bool
  -- whether the loop of its connection runs
  pub connected : Bool

abbrev pub Hub : Type 0
Hub = List Client

-- The capacity of `Send`.
abbrev pub capacity : ℕ
capacity = 64

-- `select { case c.Send <- msg: default: }`
unfoldable pub offer : WsMessage → Client → Client
offer m c = if ltb (length c.queue) capacity then record c { queue = c.queue ++ m ∷ [] } else c

abbrev pub displace : String → Client → Client
displace id c = if str_eq c.id id then record c { registered = false } else c

-- Register: the name points to the new object; an older one of that name is out of the map.
unfoldable pub register : Client → Hub → Hub
register c hub = record c { registered = true } ∷ map (displace c.id) hub

abbrev pub close : ℕ → Client → Client
close handle c =
    if c.handle == handle && c.registered then record c { registered = false; closed = true } else c

-- Unregister, of the object at that address, if it is the one in the map.
unfoldable pub unregister : ℕ → Hub → Hub
unregister handle = map (close handle)

unfoldable pub broadcast_session : WsMessage → String → String → Hub → Hub
unfolding offer
broadcast_session m sender code =
    map (λ c.
      if c.registered && (not (str_eq c.id sender) && str_eq c.code code) then offer m c else c)

unfoldable pub broadcast_session_all : WsMessage → String → Hub → Hub
unfolding offer
broadcast_session_all m code =
    map (λ c. if c.registered && str_eq c.code code then offer m c else c)

-- The order of the list stands for the order of Go's range over a map, which is random.
unfoldable pub session_participants : String → Hub → List (String × String)
unfolding keep
session_participants code hub =
    map (λ c. (c.id, c.role)) (keep (λ c. c.registered && str_eq c.code code) hub)

unfoldable pub update_client_role : String → String → Hub → Hub
update_client_role user role =
    map (λ c. if c.registered && str_eq c.id user then record c { role = role } else c)

unfoldable pub send_raw : String → Outgoing → Hub → Hub
unfolding offer
send_raw user out = map (λ c. if c.registered && str_eq c.id user then offer (text out) c else c)

-- The object at an address.
unfoldable pub find_client : ℕ → Hub → Option Client
find_client handle [] = none
find_client handle (c ∷ hub) = if c.handle == handle then some c else find_client handle hub

-- The loop of a connection ends.
unfoldable pub end_loop : ℕ → Hub → Hub
end_loop handle = map (λ c. if c.handle == handle then record c { connected = false } else c)
