-- ===== src/Retranslator/Clients.antt =====
-- sendegts.go: the list of the systems that records are sent to. The database is a parameter.
use nav_control.Base.{
  ℕ, zero, suc, List, [], ◌∷◌, ◌++◌, Option, none, some, Bool, true, false, if◌then◌else◌, ◌==◌,
}
use nav_control.Go.Text.{Text}

-- The channel `sigClient`: nil, made by the goroutine of the client, or closed.
pub data Signal : Type 0 where
  no_signal open_signal closed_signal : Signal

-- `SendConnect`, of what the server reads and changes.
pub record SendConnect : Type 0 where
  pub id_client : ℕ
  pub active : Bool
  pub ip : Text
  pub port : ℕ
  pub protocol : Text
  pub field : List Text
  pub signal : Signal

-- `proto.Client`
pub record Client : Type 0 where
  pub id_retranslator : ℕ
  pub id_sm : ℕ
  pub ip_client : Text
  pub port_client : ℕ
  pub protocol : Text
  pub sensors : List Text
  pub active : Bool

-- What the queries give: the client as the database has it, or `none` for an error.
pub record Database : Type 0 where
  pub change_active : ℕ → Bool → Option Client
  pub update_cl : Client → Bool
  pub delete_cl : ℕ → Option Client
  pub insert_cl : Client → Option ℕ

-- An answer, an error, or a panic.
pub data Answer : Type 0 where
  answered : Client → Answer
  refused : Answer
  crashed : Answer

-- `close(sc.sigClient)`, which panics on a channel that is nil or closed, and `sc.Active = false`.
unfoldable pub close_signal : SendConnect → Signal → Option SendConnect
close_signal c no_signal = none
close_signal c open_signal = some (record c { active = false; signal = closed_signal })
close_signal c closed_signal = none

-- `Stop` of a connection
unfoldable pub stop_connection : SendConnect → Option SendConnect
stop_connection c = if c.active then close_signal c c.signal else some c

-- The loops over the list, which end at the first client with the identifier.
unfoldable pub at_client :
    ℕ → (SendConnect → Answer × SendConnect) → List SendConnect → Answer × List SendConnect
at_client id change [] = (refused, [])
at_client id change (c ∷ cs) =
    let later = at_client id change cs in
    let changed = change c in
    if c.id_client == id then (changed.0, changed.1 ∷ cs) else (later.0, c ∷ later.1)

module _ (db : Database) where
  -- The body of the loop in `StopClient`.
  unfoldable pub stop_this : (id id_sm : ℕ) → SendConnect → Answer × SendConnect
  stop_this id id_sm c =
      if c.active
      then elim (db.change_active id false) [
        | none ↦ (refused, c)
        | some ret ↦ elim (stop_connection c) [
          | none ↦ (crashed, c)
          | some d ↦ (answered (record ret { id_sm = id_sm }), d)
        ]
      ]
      else (refused, c)

  -- `StopClient`
  unfoldable pub stop_client : (id id_sm : ℕ) → List SendConnect → Answer × List SendConnect
  stop_client id id_sm cs = at_client id (stop_this id id_sm) cs

  -- The body of the loop in `RunClient`: the goroutine that makes the channel starts later.
  unfoldable pub run_this : (id id_sm : ℕ) → SendConnect → Answer × SendConnect
  run_this id id_sm c = if c.active then (refused, c) else elim (db.change_active id true) [
    | none ↦ (refused, c)
    | some ret ↦ (answered (record ret { id_sm = id_sm }), record c { active = true })
  ]

  -- `RunClient`
  unfoldable pub run_client : (id id_sm : ℕ) → List SendConnect → Answer × List SendConnect
  run_client id id_sm cs = at_client id (run_this id id_sm) cs

  -- The body of the loop in `UpdateClient`: the connection is changed first, also when the query fails.
  unfoldable pub update_this : Client → SendConnect → Answer × SendConnect
  update_this upcl c =
      let told = record upcl { active = c.active } in
      (
        if db.update_cl told then answered told else refused,
        record c {
          ip = upcl.ip_client;
          port = upcl.port_client;
          protocol = upcl.protocol;
          field = upcl.sensors;
        },
      )

  -- `UpdateClient`
  unfoldable pub update_client : Client → List SendConnect → Answer × List SendConnect
  update_client upcl cs = at_client upcl.id_retranslator (update_this upcl) cs

-- The loop of `DeleteClient`, which finds the last client with the identifier.
unfoldable pub last_index : ℕ → List SendConnect → Option ℕ
last_index id [] = none
last_index id (c ∷ cs) = elim (last_index id cs) [
  | none ↦ if c.id_client == id then some zero else none
  | some i ↦ some (suc i)
]

-- `s.servOut[f]`, stopped if it is active, then the list without it.
unfoldable pub remove_client : ℕ → List SendConnect → Option (List SendConnect)
remove_client i [] = none
remove_client zero (c ∷ cs) = elim (stop_connection c) [ none ↦ none | some d ↦ some cs ]
remove_client (suc i) (c ∷ cs) = elim (remove_client i cs) [ none ↦ none | some ds ↦ some (c ∷ ds) ]

module _ (db : Database) where
  -- `DeleteClient`
  unfoldable pub delete_client : (id id_sm : ℕ) → List SendConnect → Answer × List SendConnect
  delete_client id id_sm cs = elim (last_index id cs) [
    | none ↦ (refused, cs)
    | some f ↦ elim (db.delete_cl id) [
      | none ↦ (refused, cs)
      | some old ↦ elim (remove_client f cs) [
        | none ↦ (crashed, cs)
        | some ds ↦ (answered (record old { id_sm = id_sm }), ds)
      ]
    ]
  ]

  -- `AddClient`: the goroutine of an active client makes its channel later.
  unfoldable pub add_client : Client → List SendConnect → Answer × List SendConnect
  add_client ins cs = elim (db.insert_cl ins) [
    | none ↦ (refused, cs)
    | some id ↦ (
      answered (record ins { id_retranslator = id }),
      cs
          ++ (record {
            id_client = id;
            active = ins.active;
            ip = ins.ip_client;
            port = ins.port_client;
            protocol = ins.protocol;
            field = ins.sensors;
            signal = no_signal;
          }
              ∷ []),
    )
  ]
