-- ===== src/Client/Reconnect/Handling/Delivery.antt =====
-- What the application and the server get of a stream of updates.
use zakura_grpc.Common.{
  ℕ, ℤ, not, is_negative, ◌≡◌, ◌≤◌, ◌<◌, refl, sym, ap, ◌∙◌, Bool, true, false, Option, none, some,
  List, [], ◌∷◌, length, filter_map, contains, nodup, all, if◌then◌else◌, arith, Option-cases,
  Bool-cases, inl, inr,
}
use zakura_grpc.Proto.{SubscribeUpdate, Update, SubscribeRequest, default_request}
use zakura_grpc.Client.Dedup.{DedupState, EventKey, update_height, with_height_retention, key_eq}
use zakura_grpc.Client.Dedup.Runs.{deliver, block_keys, Within, delivers_exactly_once}
use zakura_grpc.Client.Reconnect.{Session, ReconnectConfig, ReconnectionPolicy, new_session}
use zakura_grpc.Client.Reconnect.Handling.{
  Sent, Heartbeat, heartbeat, ping_reply, pass, note, handle_update, handle_all,
}

-- The updates that the application gets, and the requests that the server gets.
pub outputs : List Sent → List SubscribeUpdate
outputs [] = []
outputs (Sent.request r ∷ xs) = outputs xs
outputs (Sent.output u ∷ xs) = u ∷ outputs xs

pub requests : List Sent → List SubscribeRequest
requests [] = []
requests (Sent.request r ∷ xs) = r ∷ requests xs
requests (Sent.output u ∷ xs) = requests xs

-- The updates of the application: all but the pings of the server and the pongs with a negative
-- number, which answer the pings of the client itself.
unfoldable is_content : Option Update → Bool
is_content (some (Update.ping p)) = false
is_content (some (Update.pong p)) = not (is_negative p.id)
is_content _ = true

pub content : List SubscribeUpdate → List SubscribeUpdate
content [] = []
content (u ∷ us) = let rest = content us in if is_content u.update then u ∷ rest else rest

-- The reply to an update: to a ping, a request with the number of the ping.
unfoldable reply_to : Option Update → Option SubscribeRequest
reply_to (some (Update.ping p)) =
    some (record default_request { ping = some (record { id = p.id }) })
reply_to _ = none

pub replies : List SubscribeUpdate → List SubscribeRequest
replies [] = []
replies (u ∷ us) =
    let rest = replies us in elim (reply_to u.update) [ none ↦ rest | some r ↦ r ∷ rest ]

-- What the handler's own reading of an update says of both.
told_by : Option Heartbeat → Bool × Option SubscribeRequest
told_by none = (true, none)
told_by (some (Heartbeat.ping id)) = (false, some (ping_reply id))
told_by (some Heartbeat.own_pong) = (false, none)

told_lem : (x : Option Update) → (is_content x, reply_to x) ≡ told_by (heartbeat x)
unfolding told_by heartbeat is_content reply_to
told_lem (some (Update.ping p)) = refl
told_lem (some (Update.pong p)) = elim (Bool-cases (is_negative p.id)) [
  | inl e ↦ rw (e, heartbeat, is_content) refl
  | inr e ↦ rw (e, heartbeat, is_content) refl
]
told_lem _ = refl

told :
    (u : SubscribeUpdate) (h : Option Heartbeat)
    → heartbeat u.update ≡ h
    → (is_content u.update ≡ (told_by h).0) × (reply_to u.update ≡ (told_by h).1)
told u h e = let both = told_lem u.update ∙ ap told_by e in (ap (λ t. t.0) both, ap (λ t. t.1) both)

-- The stream after the deduplication of the session.
pub passed : Option DedupState → List SubscribeUpdate → List SubscribeUpdate
passed none us = us
passed (some d) us = deliver d us

passed-nil : (d : Option DedupState) → passed d [] ≡ []
unfolding passed deliver
passed-nil none = refl
passed-nil (some d) = refl

passed-cons :
    (d : Option DedupState) (u : SubscribeUpdate) (us : List SubscribeUpdate)
    → passed d (u ∷ us)
      ≡ (if (pass d u).1 then u ∷ passed (pass d u).0 us else passed (pass d u).0 us)
unfolding passed pass deliver
passed-cons none u us = refl
passed-cons (some d) u us = refl

-- What has been sent after a stream from a session.
pub record Sends (us : List SubscribeUpdate) (s : Session) (sent : List Sent) : Type 0 where
  pub to_application : outputs sent ≡ passed s.dedup (content us)
  pub to_server : requests sent ≡ replies us

Sends-ping :
    (u : SubscribeUpdate) (us : List SubscribeUpdate) (s : Session) (id : ℤ)
    → heartbeat u.update ≡ some (Heartbeat.ping id)
    → Sends us s (handle_all us s).1
    → Sends (u ∷ us) s (handle_all (u ∷ us) s).1
unfolding handle_all handle_update content replies outputs requests told_by
Sends-ping u us s id e r =
    let t = told u (some (Heartbeat.ping id)) e in
    record {
      to_application = rw (e, t.0, handle_all, handle_update, content) r.to_application;
      to_server =
          rw (e, t.1, handle_all, handle_update, replies)
            (ap (λ rs. ping_reply id ∷ rs) r.to_server);
    }

Sends-pong :
    (u : SubscribeUpdate) (us : List SubscribeUpdate) (s : Session)
    → heartbeat u.update ≡ some Heartbeat.own_pong
    → Sends us s (handle_all us s).1
    → Sends (u ∷ us) s (handle_all (u ∷ us) s).1
unfolding handle_all handle_update content replies outputs requests told_by
Sends-pong u us s e r =
    let t = told u (some Heartbeat.own_pong) e in
    record {
      to_application = rw (e, t.0, handle_all, handle_update, content) r.to_application;
      to_server = rw (e, t.1, handle_all, handle_update, replies) r.to_server;
    }

content-none :
    (u : SubscribeUpdate) (us : List SubscribeUpdate)
    → heartbeat u.update ≡ none
    → (content (u ∷ us) ≡ u ∷ content us) × (replies (u ∷ us) ≡ replies us)
unfolding content replies told_by
content-none u us e = let t = told u none e in (rw (t.0, content) refl, rw (t.1, replies) refl)

handle_all-pass :
    (u : SubscribeUpdate) (us : List SubscribeUpdate) (s : Session)
    → heartbeat u.update ≡ none
    → (pass s.dedup u).1 ≡ true
    → (handle_all (u ∷ us) s).1 ≡ Sent.output u ∷ (handle_all us (note u s)).1
unfolding handle_all handle_update
handle_all-pass u us s e p = rw (e, p, handle_all, handle_update) refl

handle_all-drop :
    (u : SubscribeUpdate) (us : List SubscribeUpdate) (s : Session)
    → heartbeat u.update ≡ none
    → (pass s.dedup u).1 ≡ false
    → (handle_all (u ∷ us) s).1 ≡ (handle_all us (note u s)).1
unfolding handle_all handle_update
handle_all-drop u us s e p = rw (e, p, handle_all, handle_update) refl

Sends-content :
    (u : SubscribeUpdate) (us : List SubscribeUpdate) (s : Session)
    → heartbeat u.update ≡ none
    → Sends us (note u s) (handle_all us (note u s)).1
    → Sends (u ∷ us) s (handle_all (u ∷ us) s).1
unfolding outputs requests note
Sends-content u us s e r =
    let c = content-none u us e in
    elim (Bool-cases (pass s.dedup u).1) [
      | inl p ↦ record {
        to_application =
            rw (handle_all-pass u us s e p, c.0, passed-cons s.dedup u (content us), p)
              (ap (λ xs. u ∷ xs) r.to_application);
        to_server = rw (handle_all-pass u us s e p, c.1) r.to_server;
      }
      | inr p ↦ record {
        to_application =
            rw (handle_all-drop u us s e p, c.0, passed-cons s.dedup u (content us), p)
              r.to_application;
        to_server = rw (handle_all-drop u us s e p, c.1) r.to_server;
      }
    ]

-- While its channels accept, a session sends the application all updates but the pings and the
-- pongs with a negative number, less those that its deduplication drops, in order, and the server
-- one reply for each ping, with the number of the ping, in order.
pub session-Sends : (us : List SubscribeUpdate) (s : Session) → Sends us s (handle_all us s).1
unfolding handle_all content replies outputs requests
session-Sends [] s = record { to_application = sym (passed-nil s.dedup); to_server = refl }
session-Sends (u ∷ us) s = elim (Option-cases (heartbeat u.update)) [
  | inl e ↦ Sends-content u us s e (session-Sends us (note u s))
  | inr (Heartbeat.ping id, e) ↦ Sends-ping u us s id e (session-Sends us s)
  | inr (Heartbeat.own_pong, e) ↦ Sends-pong u us s e (session-Sends us s)
]

heartbeat_height :
    (x : Option Update) (u : SubscribeUpdate) (h : Heartbeat)
    → u.update ≡ x
    → heartbeat x ≡ some h
    → update_height u ≡ none
unfolding heartbeat update_height
heartbeat_height (some (Update.ping p)) u h e k = rw (e, update_height) refl
heartbeat_height (some (Update.pong p)) u h e k = rw (e, update_height) refl
heartbeat_height _ u h e k = cc

block_keys-content : (us : List SubscribeUpdate) → block_keys (content us) ≡ block_keys us
unfolding content block_keys filter_map told_by
block_keys-content [] = refl
block_keys-content (u ∷ us) = elim (Option-cases (heartbeat u.update)) [
  | inl e ↦ ground (arith, block_keys-content us, (told u none e).0)
  | inr (h, e) ↦ ground (arith, block_keys-content us, heartbeat_height u.update u h refl e)
]

Within-content : (hs : List ℕ) (us : List SubscribeUpdate) → Within hs us → Within hs (content us)
unfolding content Within all
Within-content hs [] w = refl
Within-content hs (u ∷ us) w = ground (arith, Within-content hs us)

-- A reconnecting client that recovers missed data and keeps `retention` heights: of a stream whose
-- block-scoped updates have heights among at most that many, overlapping replays included, the
-- application gets the key of every block-scoped update and none twice.
pub session_exactly_once :
    (initial : SubscribeRequest) (c : ReconnectConfig) (retention : ℕ) (hs : List ℕ)
    (us : List SubscribeUpdate)
    → c.policy ≡ ReconnectionPolicy.recover_missed_data retention
    → 0 < retention
    → length hs ≤ retention
    → Within hs us
    → let got = block_keys (outputs (handle_all us (new_session initial (some c))).1) in
      (nodup got ≡ true) × ((k : EventKey) → contains got k ≡ contains (block_keys us) k)
unfolding passed new_session
session_exactly_once initial c retention hs us policy positive fits w =
    let d =
      delivers_exactly_once retention hs (content us) positive fits (Within-content hs us w) in
    let dedup : (new_session initial (some c)).dedup ≡ some (with_height_retention retention) =
      rw policy refl in
    let sent : outputs (handle_all us (new_session initial (some c))).1
        ≡ deliver (with_height_retention retention) (content us) =
      (session-Sends us (new_session initial (some c))).to_application
      ∙ ap (λ o. passed o (content us)) dedup in
    rw (sent, ← block_keys-content us) d
