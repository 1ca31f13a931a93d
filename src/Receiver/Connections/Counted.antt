-- ===== src/Receiver/Connections/Counted.antt =====
-- hangle.go: the maps of clients and the goroutines of the connections.
use nav_control.Base.{
  All, ◌+◌, ℕ, suc, ◌≡◌, refl, sym, ap, subst, ◌∙◌, List, [], ◌∷◌, ◌++◌, length, length-append,
  true, false, arith, Bool-cases, Option-cases, inl, inr, if-true, if-false,
}
use nav_control.Go.Text.{Text}
use nav_control.Receiver.Instance.{find_client, has_address, new_instance, egts}
use nav_control.Receiver.Connections.{
  Listening, Process, add_listener, listening_of, process_of, Handler, Serving, new_client, accept,
  close_connection, disconnect_client, without_handler, finish, inactive_clients, disconnect_all,
  check_inactive_clients, close_all, stop_serving,
}
use nav_control.Receiver.Connections.Ids.{
  client_ids, handler_ids, AreDistinct, without_id, client_ids-delete_client,
  handler_ids-without_handler, client_ids-put_client, handler_ids-append, handler_ids-close_at,
  length-close_at, AreDistinct-without_id, AreDistinct-append, length-without_id,
}

-- The clients are those of the goroutines, in order and each once.
pub record IsOwn (l : Listening) : Type 0 where
  pub clients : client_ids l.instance.clients ≡ handler_ids l.handlers
  pub distinct : AreDistinct (handler_ids l.handlers)

-- The same, and the gauge counts the goroutines of this instance and those of the others.
pub record IsCounted (others : ℕ) (s : Serving) : Type 0 where
  pub clients : client_ids s.instance.clients ≡ handler_ids s.handlers
  pub gauge : s.connected_devices ≡ others + length s.handlers
  pub distinct : AreDistinct (handler_ids s.handlers)

length-handler_ids : (hs : List Handler) → length (handler_ids hs) ≡ length hs
unfolding handler_ids
length-handler_ids [] = refl
length-handler_ids (h ∷ hs) = ap suc (length-handler_ids hs)

module _ {others : ℕ} where
  accept-IsCounted :
      (id address : Text) (now : ℕ) (s : Serving)
      → has_address id (handler_ids s.handlers) ≡ false
      → IsCounted others s
      → IsCounted others (accept id address now s)
  unfolding accept new_client
  accept-IsCounted id address now s fresh v = elim (Bool-cases s.instance.cancelled) [
    | inl over ↦ rw (accept, if-true _ _ over) v
    | inr runs ↦
        let h : Handler = record { address = address; client_id = id; is_open = true } in
        let ids = handler_ids-append s.handlers h in
        let c = new_client id address now in
        rw (accept, if-false _ _ runs)
          (record {
            clients =
                client_ids-put_client c s.instance.clients
                  (subst (λ ts. has_address id ts ≡ false) (sym v.clients) fresh)
                ∙ ap (λ ts. ts ++ (id ∷ [])) v.clients
                ∙ sym ids;
            gauge = omega (arith, v.gauge, length-append s.handlers (h ∷ []));
            distinct =
                subst AreDistinct (sym ids)
                  (AreDistinct-append (handler_ids s.handlers) id v.distinct fresh);
          })
  ]

  close_connection-IsCounted :
      (a : Text) (s : Serving) → IsCounted others s → IsCounted others (close_connection a s)
  unfolding close_connection
  close_connection-IsCounted a s v = record {
    clients = v.clients ∙ sym (handler_ids-close_at a s.handlers);
    gauge = omega (arith, v.gauge, length-close_at a s.handlers);
    distinct = subst AreDistinct (sym (handler_ids-close_at a s.handlers)) v.distinct;
  }

  disconnect_client-IsCounted :
      (id : Text) (s : Serving) → IsCounted others s → IsCounted others (disconnect_client id s)
  unfolding disconnect_client
  disconnect_client-IsCounted id s v = elim (Option-cases (find_client id s.instance.clients)) [
    | inl unknown ↦ rw (disconnect_client, unknown) v
    | inr (c, found) ↦ elim (Bool-cases (has_address c.remote_addr s.instance.connections)) [
      | inl there ↦
          rw (disconnect_client, found, there) (close_connection-IsCounted c.remote_addr s v)
      | inr gone ↦ rw (disconnect_client, found, gone) v
    ]
  ]

  finish-IsCounted :
      (id address : Text) (s : Serving)
      → has_address id (handler_ids s.handlers) ≡ true
      → IsCounted others s
      → IsCounted others (finish id address s)
  unfolding finish
  finish-IsCounted id address s there v =
      let ids = handler_ids-without_handler id s.handlers in
      let one_less = length-without_id id (handler_ids s.handlers) v.distinct there in
      record {
        clients =
            client_ids-delete_client id s.instance.clients ∙ ap (without_id id) v.clients ∙ sym ids;
        gauge = omega (
          arith,
          v.gauge,
          one_less,
          ap (length {A = Text}) ids,
          length-handler_ids s.handlers,
          length-handler_ids (without_handler id s.handlers),
        );
        distinct =
            subst AreDistinct (sym ids)
              (AreDistinct-without_id id (handler_ids s.handlers) v.distinct);
      }

  disconnect_all-IsCounted :
      (ids : List Text) (s : Serving) → IsCounted others s → IsCounted others (disconnect_all ids s)
  unfolding disconnect_all
  disconnect_all-IsCounted [] s v = v
  disconnect_all-IsCounted (id ∷ ids) s v =
      disconnect_all-IsCounted ids (disconnect_client id s) (disconnect_client-IsCounted id s v)

  close_all-IsCounted :
      (list : List Text) (s : Serving) → IsCounted others s → IsCounted others (close_all list s)
  unfolding close_all
  close_all-IsCounted [] s v = v
  close_all-IsCounted (a ∷ more) s v =
      close_all-IsCounted more (close_connection a s) (close_connection-IsCounted a s v)

-- What happens to a listener: the identifier of a new client is that of no client whose goroutine runs.
pub data Step : Serving → Serving → Type 0 where
  accepts :
      (id address : Text) (now : ℕ) (s : Serving)
      → has_address id (handler_ids s.handlers) ≡ false
      → Step s (accept id address now s)
  closes : (address : Text) (s : Serving) → Step s (close_connection address s)
  disconnects : (id : Text) (s : Serving) → Step s (disconnect_client id s)
  finishes :
      (id address : Text) (s : Serving)
      → has_address id (handler_ids s.handlers) ≡ true
      → Step s (finish id address s)
  ticks : (now : ℕ) (s : Serving) → Step s (check_inactive_clients now s)
  stops : (s : Serving) → Step s (stop_serving s)

Step-IsCounted : {others : ℕ} {s t : Serving} → Step s t → IsCounted others s → IsCounted others t
unfolding check_inactive_clients stop_serving
Step-IsCounted (accepts id address now s fresh) v = accept-IsCounted id address now s fresh v
Step-IsCounted (closes address s) v = close_connection-IsCounted address s v
Step-IsCounted (disconnects id s) v = disconnect_client-IsCounted id s v
Step-IsCounted (finishes id address s there) v = finish-IsCounted id address s there v
Step-IsCounted (ticks now s) v = elim (Bool-cases s.instance.cancelled) [
  | inl over ↦ rw (check_inactive_clients, if-true _ _ over) v
  | inr runs ↦
      rw (check_inactive_clients, if-false _ _ runs)
        (disconnect_all-IsCounted (inactive_clients now s.instance.clients) s v)
]
Step-IsCounted (stops s) v =
    let closed = close_all-IsCounted s.instance.connections s v in
    record { clients = closed.clients; gauge = closed.gauge; distinct = closed.distinct }

-- What happens to the process: a new instance, or a step of one of them.
pub data Move : Process → Process → Type 0 where
  opens : (p : Process) → Move p (add_listener p)
  serves :
      (before later : List Listening) {s t : Serving}
      → Step s t
      → Move (process_of before s later) (process_of before t later)

pub data Reach : Process → Type 0 where
  starts : Reach (record { listeners = []; connected_devices = 0 })
  next : {p q : Process} → Reach p → Move p q → Reach q

-- The goroutines of all instances.
unfoldable pub total : List Listening → ℕ
total [] = 0
total (l ∷ ls) = length l.handlers + total ls

-- Each instance has its own clients, and the gauge counts the goroutines of all.
pub record AreCounted (p : Process) : Type 0 where
  pub own : All IsOwn p.listeners
  pub gauge : p.connected_devices ≡ total p.listeners

total-append : (ls ms : List Listening) → total (ls ++ ms) ≡ total ls + total ms
unfolding total
total-append [] ms = omega arith
total-append (l ∷ ls) ms = omega (arith, total-append ls ms)

IsOwn-parts : (ls ms : List Listening) → All IsOwn (ls ++ ms) → All IsOwn ls × All IsOwn ms
IsOwn-parts [] ms h = (tt, h)
IsOwn-parts (l ∷ ls) ms (h, hs) = let (first, rest) = IsOwn-parts ls ms hs in ((h, first), rest)

IsOwn-joined : (ls ms : List Listening) → All IsOwn ls → All IsOwn ms → All IsOwn (ls ++ ms)
IsOwn-joined [] ms h k = k
IsOwn-joined (l ∷ ls) ms (h, hs) k = (h, IsOwn-joined ls ms hs k)

Move-AreCounted : {p q : Process} → Move p q → AreCounted p → AreCounted q
unfolding add_listener process_of listening_of total new_instance client_ids handler_ids AreDistinct
Move-AreCounted (opens p) v = record {
  own = IsOwn-joined p.listeners _ v.own (record { clients = refl; distinct = tt }, tt);
  gauge = omega (
    arith,
    v.gauge,
    total-append p.listeners (record { instance = new_instance egts; handlers = [] } ∷ []),
  );
}
Move-AreCounted (serves before later {s} {t} step) v =
    let (first, (own, rest)) = IsOwn-parts before (listening_of s ∷ later) v.own in
    let counted : IsCounted (total before + total later) s = record {
      clients = own.clients;
      gauge = omega (arith, v.gauge, total-append before (listening_of s ∷ later));
      distinct = own.distinct;
    } in
    let after = Step-IsCounted step counted in
    record {
      own =
          IsOwn-joined before (listening_of t ∷ later) first
            (record { clients = after.clients; distinct = after.distinct }, rest);
      gauge = omega (arith, after.gauge, total-append before (listening_of t ∷ later));
    }

-- From a process without instances, after any sequence of new instances and of steps of any of them
-- (an accept under an identifier that no running goroutine of that instance has, a connection closed
-- or disconnected, a check for silent clients, a stop, the end of a goroutine that runs), the
-- clients in the map of each instance are those of its running goroutines in order, with distinct
-- identifiers, and the one gauge that all instances share is the number of running goroutines of all
-- of them.
pub Reach-AreCounted : {p : Process} → Reach p → AreCounted p
unfolding total
Reach-AreCounted starts = record { own = tt; gauge = refl }
Reach-AreCounted (next reach move) = Move-AreCounted move (Reach-AreCounted reach)
