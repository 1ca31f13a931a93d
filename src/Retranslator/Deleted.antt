-- ===== src/Retranslator/Deleted.antt =====
-- sendegts.go, DeleteClient: what becomes of the list of clients on each branch.
use nav_control.Base.{
  ℕ, ◌≡◌, ◌≢◌, refl, ap, ◌∙◌, List, [], ◌∷◌, ◌++◌, length, none, some, true, false, ◌==◌, ◌⊎◌, inl,
  inr, All, Bool-cases, Option-cases, arith,
}
use nav_control.Retranslator.Clients.{
  SendConnect, Signal, no_signal, open_signal, closed_signal, Client, Database, Answer, answered,
  refused, crashed, close_signal, stop_connection, last_index, remove_client, delete_client,
}

-- No client in the list has the identifier.
abbrev pub AreOthers : ℕ → List SendConnect → Type 0
AreOthers id = All (λ c. c.id_client ≢ id)

-- The last client with the identifier, between the others.
pub record IsLast (id : ℕ) (cs before : List SendConnect) (c : SendConnect)
    (after : List SendConnect) : Type 0 where
  pub parts : cs ≡ before ++ (c ∷ after)
  pub own_id : c.id_client ≡ id
  pub others : AreOthers id after

-- A client that does not run, or whose channel is open.
abbrev pub IsStoppable : SendConnect → Type 0
IsStoppable c = (c.active ≡ false) ⊎ (c.signal ≡ open_signal)

-- A client that is marked as running, and whose channel is nil or closed.
abbrev pub IsBlocked : SendConnect → Type 0
IsBlocked c = (c.active ≡ true) × (c.signal ≢ open_signal)

-- What a deletion does, by the list and the answer of the database.
pub data Deletes (db : Database) (id id_sm : ℕ) (cs : List SendConnect)
    : Answer × List SendConnect → Type 0 where
  unknown : AreOthers id cs → Deletes db id id_sm cs (refused, cs)
  unsaved :
      (before : List SendConnect) (c : SendConnect) (after : List SendConnect)
      → IsLast id cs before c after
      → db.delete_cl id ≡ none
      → Deletes db id id_sm cs (refused, cs)
  removes :
      (before : List SendConnect) (c : SendConnect) (after : List SendConnect) (old : Client)
      → IsLast id cs before c after
      → db.delete_cl id ≡ some old
      → IsStoppable c
      → Deletes db id id_sm cs (answered (record old { id_sm = id_sm }), before ++ after)
  panics :
      (before : List SendConnect) (c : SendConnect) (after : List SendConnect) (old : Client)
      → IsLast id cs before c after
      → db.delete_cl id ≡ some old
      → IsBlocked c
      → Deletes db id id_sm cs (crashed, cs)

last_index-cases :
    (id : ℕ) (cs : List SendConnect)
    → ((last_index id cs ≡ none) × AreOthers id cs)
      ⊎ ((before : List SendConnect) × (c : SendConnect) × (after : List SendConnect) × IsLast id cs
            before c after
          × (last_index id cs ≡ some (length before)))
unfolding last_index
last_index-cases id [] = inl (refl, tt)
last_index-cases id (c ∷ cs) = elim (last_index-cases id cs) [
  | inr (before, d, after, last, found) ↦ inr (
    c ∷ before,
    d,
    after,
    record { parts = ap (◌∷◌ c) last.parts; own_id = last.own_id; others = last.others },
    rw found refl,
  )
  | inl (missing, others) ↦ elim (Bool-cases (c.id_client == id)) [
    | inl same ↦ inr (
      [],
      c,
      cs,
      record { parts = refl; own_id = ground (arith, same); others = others },
      rw (missing, same) refl,
    )
    | inr other ↦ inl (rw (missing, other) refl, (ground (arith, other), others))
  ]
]

stop_connection-cases :
    (c : SendConnect)
    → ((stop_connection c ≡ none) × IsBlocked c)
      ⊎ ((d : SendConnect) × (stop_connection c ≡ some d) × IsStoppable c)
unfolding stop_connection close_signal
stop_connection-cases c = elim (Bool-cases c.active) [
  | inr idle ↦ inr (c, rw idle refl, inl idle)
  | inl runs ↦ elim (close_signal-cases c.signal) [
    | inl (fails, shut) ↦ inl (rw runs fails, (runs, shut))
    | inr (d, closes, opened) ↦ inr (d, rw runs closes, inr opened)
  ]
]
  where
    close_signal-cases :
        (x : Signal)
        → ((close_signal c x ≡ none) × (x ≢ open_signal))
          ⊎ ((d : SendConnect) × (close_signal c x ≡ some d) × (x ≡ open_signal))
    close_signal-cases no_signal = inl (refl, λ e. cc e)
    close_signal-cases open_signal = inr (_, refl, refl)
    close_signal-cases closed_signal = inl (refl, λ e. cc e)

remove_client-stops :
    (before : List SendConnect) (c d : SendConnect) (after : List SendConnect)
    → stop_connection c ≡ some d
    → remove_client (length before) (before ++ (c ∷ after)) ≡ some (before ++ after)
unfolding remove_client
remove_client-stops [] c d after stops = rw (remove_client, stops) refl
remove_client-stops (b ∷ before) c d after stops =
    rw (remove_client-stops before c d after stops) refl

remove_client-blocked :
    (before : List SendConnect) (c : SendConnect) (after : List SendConnect)
    → stop_connection c ≡ none
    → remove_client (length before) (before ++ (c ∷ after)) ≡ none
unfolding remove_client
remove_client-blocked [] c after blocked = rw (remove_client, blocked) refl
remove_client-blocked (b ∷ before) c after blocked =
    rw (remove_client-blocked before c after blocked) refl

-- For any list of clients and any database, `delete_client` does one of four things: no client has
-- the identifier, and it is refused with the list as it was; the last client with it is found and
-- the database fails, and it is refused with the list as it was; the database deletes, and that
-- client does not run or its channel is open, and the answer is what the database gave and the list
-- is what stands before and behind that client; or the database deletes, but that client is marked
-- as running with a channel that is nil or closed, and the call panics with the list as it was.
pub delete_client-Deletes :
    (db : Database) (id id_sm : ℕ) (cs : List SendConnect)
    → Deletes db id id_sm cs (delete_client db id id_sm cs)
unfolding delete_client
delete_client-Deletes db id id_sm cs = elim (last_index-cases id cs) [
  | inl (missing, others) ↦ rw (delete_client, missing) (unknown others)
  | inr (before, c, after, last, found) ↦ elim (Option-cases (db.delete_cl id)) [
    | inl fails ↦ rw (delete_client, found, fails) (unsaved before c after last fails)
    | inr (old, deleted) ↦ elim (stop_connection-cases c) [
      | inl (fails, blocked) ↦
          let removed : remove_client (length before) cs ≡ none =
            ap (remove_client (length before)) last.parts
            ∙ remove_client-blocked before c after fails in
          rw (delete_client, found, deleted, removed)
            (panics before c after old last deleted blocked)
      | inr (d, stops, stoppable) ↦
          let removed : remove_client (length before) cs ≡ some (before ++ after) =
            ap (remove_client (length before)) last.parts
            ∙ remove_client-stops before c d after stops in
          rw (delete_client, found, deleted, removed)
            (removes before c after old last deleted stoppable)
    ]
  ]
]
