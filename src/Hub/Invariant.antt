-- ===== src/Hub/Invariant.antt =====
-- What holds of the hub after every operation: a well-formedness that all of them keep.
use collaborative_ide.Prelude.{
  ◌≡◌, ◌≢◌, ◌≤◌, true, false, List, [], ◌∷◌, arith, All, map, length, String, Bool, if◌then◌else◌,
  length-append, ℕ, eq_iff, ◌&&◌, not, str_eq, ◌==◌,
}
use collaborative_ide.Hub.{
  Client, Hub, WsMessage, offer, register, unregister, broadcast_session, broadcast_session_all,
  update_client_role, send_raw, capacity, displace, close, Outgoing, end_loop,
}
use collaborative_ide.Collab.Roles.{IsRole}

-- A client that can be reached has an open channel, no queue is over its capacity, the role is one
-- of the three, and the name is not empty.
pub record IsSound (c : Client) : Type 0 where
  pub live : c.registered ≡ true → c.closed ≡ false
  pub bounded : length c.queue ≤ capacity
  pub role : IsRole c.role
  pub named : c.id ≢ ""

-- At most one client object of a name is in the map.
abbrev pub IsUnique : Hub → Type 0
IsUnique [] = Unit
IsUnique (c ∷ hub) =
    (c.registered ≡ true → All (λ d. d.registered ≡ true → d.id ≢ c.id) hub) × IsUnique hub

pub record IsValid (hub : Hub) : Type 0 where
  pub sound : All IsSound hub
  pub unique : IsUnique hub

All-map {ℓ κ} :
    {A : Type ℓ} (P : A → Type κ) (f : A → A) (xs : List A)
    → ((x : A) → P x → P (f x))
    → All P xs
    → All P (map f xs)
All-map P f [] k h = tt
All-map P f (x ∷ xs) k (h, hs) = (k x h, All-map P f xs k hs)

-- A change of the clients that renames none and puts none into the map.
pub record IsTame (f : Client → Client) : Type 0 where
  pub named : (c : Client) → (f c).id ≡ c.id
  pub listed : (c : Client) → (f c).registered ≡ true → c.registered ≡ true
  pub sound : (c : Client) → IsSound c → IsSound (f c)

module _ (f : Client → Client) (tame : IsTame f) where
  others-map :
      (id : String) (hub : Hub)
      → All (λ d. d.registered ≡ true → d.id ≢ id) hub
      → All (λ d. d.registered ≡ true → d.id ≢ id) (map f hub)
  others-map id hub =
      All-map (λ d. d.registered ≡ true → d.id ≢ id) f hub
        (λ d h r. rw (tame.named d) (h (tame.listed d r)))

  IsUnique-map : (hub : Hub) → IsUnique hub → IsUnique (map f hub)
  IsUnique-map [] h = tt
  IsUnique-map (c ∷ hub) (h, hs) =
      (λ r. rw (tame.named c) (others-map c.id hub (h (tame.listed c r))), IsUnique-map hub hs)

  pub IsValid-map : (hub : Hub) → IsValid hub → IsValid (map f hub)
  IsValid-map hub v = record {
    sound = All-map IsSound f hub tame.sound v.sound;
    unique = IsUnique-map hub v.unique;
  }

offer-IsSound : (m : WsMessage) (c : Client) → IsSound c → IsSound (offer m c)
unfolding offer
offer-IsSound m c s = ground (arith, length-append c.queue (m ∷ []))

offer-IsTame :
    (m : WsMessage) (test : Client → Bool) → IsTame (λ c. if test c then offer m c else c)
unfolding offer
offer-IsTame m test = record {
  named = λ c. ground arith;
  listed = λ c h. ground arith;
  sound = λ c h. ground (arith, offer-IsSound m c h);
}

role-IsTame :
    (role : String) (test : Client → Bool)
    → IsRole role
    → IsTame (λ c. if test c then record c { role = role } else c)
role-IsTame role test v = record {
  named = λ c. ground arith;
  listed = λ c h. ground arith;
  sound = λ c h. ground arith;
}

close-IsTame : (handle : ℕ) → IsTame (close handle)
close-IsTame handle = record {
  named = λ c. ground arith;
  listed = λ c h. ground arith;
  sound = λ c h. ground arith;
}

end-IsTame :
    (handle : ℕ) → IsTame (λ c. if c.handle == handle then record c { connected = false } else c)
end-IsTame handle = record {
  named = λ c. ground arith;
  listed = λ c h. ground arith;
  sound = λ c h. ground arith;
}

displace-IsTame : (id : String) → IsTame (displace id)
displace-IsTame id = record {
  named = λ c. ground arith;
  listed = λ c h. ground arith;
  sound = λ c h. ground arith;
}

displaced :
    (id : String) (hub : Hub) → All (λ d. d.registered ≡ true → d.id ≢ id) (map (displace id) hub)
displaced id [] = tt
displaced id (c ∷ hub) = (λ r e. ground (arith, eq_iff c.id id), displaced id hub)

-- Registering a sound client object with an open channel keeps the hub valid; an older object of
-- that name leaves the map.
pub register-IsValid :
    (c : Client) (hub : Hub) → IsSound c → c.closed ≡ false → IsValid hub → IsValid (register c hub)
unfolding register
register-IsValid c hub s open_channel v =
    let rest = IsValid-map (displace c.id) (displace-IsTame c.id) hub v in
    record {
      sound = (
        record { live = λ _. open_channel; bounded = s.bounded; role = s.role; named = s.named },
        rest.sound,
      );
      unique = (λ _. displaced c.id hub, rest.unique);
    }

pub end_loop-IsValid : (handle : ℕ) (hub : Hub) → IsValid hub → IsValid (end_loop handle hub)
unfolding end_loop
end_loop-IsValid handle hub = IsValid-map _ (end-IsTame handle) hub

pub unregister-IsValid : (handle : ℕ) (hub : Hub) → IsValid hub → IsValid (unregister handle hub)
unfolding unregister
unregister-IsValid handle hub = IsValid-map _ (close-IsTame handle) hub

pub broadcast_session-IsValid :
    (m : WsMessage) (sender code : String) (hub : Hub)
    → IsValid hub
    → IsValid (broadcast_session m sender code hub)
unfolding broadcast_session
broadcast_session-IsValid m sender code hub =
    IsValid-map _
      (offer-IsTame m (λ c. c.registered && (not (str_eq c.id sender) && str_eq c.code code))) hub

pub broadcast_session_all-IsValid :
    (m : WsMessage) (code : String) (hub : Hub)
    → IsValid hub
    → IsValid (broadcast_session_all m code hub)
unfolding broadcast_session_all
broadcast_session_all-IsValid m code hub =
    IsValid-map _ (offer-IsTame m (λ c. c.registered && str_eq c.code code)) hub

pub send_raw-IsValid :
    (user : String) (out : Outgoing) (hub : Hub) → IsValid hub → IsValid (send_raw user out hub)
unfolding send_raw
send_raw-IsValid user out hub =
    IsValid-map _ (offer-IsTame (WsMessage.text out) (λ c. c.registered && str_eq c.id user)) hub

pub update_client_role-IsValid :
    (user role : String) (hub : Hub)
    → IsRole role
    → IsValid hub
    → IsValid (update_client_role user role hub)
unfolding update_client_role
update_client_role-IsValid user role hub r =
    IsValid-map _ (role-IsTame role (λ c. c.registered && str_eq c.id user) r) hub

-- Unregistering an object, both broadcasts, a message to one user and a change to one of the three
-- roles keep the hub valid.
pub hub_ops-IsValid :
    (hub : Hub) (m : WsMessage) (out : Outgoing) (user code role : String) (handle : ℕ)
    → IsRole role
    → IsValid hub
    → IsValid (unregister handle hub)
      × IsValid (broadcast_session m user code hub)
      × IsValid (broadcast_session_all m code hub)
      × IsValid (send_raw user out hub)
      × IsValid (update_client_role user role hub)
hub_ops-IsValid hub m out user code role handle r v = (
  unregister-IsValid handle hub v,
  broadcast_session-IsValid m user code hub v,
  broadcast_session_all-IsValid m code hub v,
  send_raw-IsValid user out hub v,
  update_client_role-IsValid user role hub r v,
)
