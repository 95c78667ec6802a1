-- ===== src/Ws/Client/Life.antt =====
-- The connections of a client over its life.
use go_oam.Base.{
  ◌≡◌, inl, inr, Bool, true, false, not, ◌&&◌, Option, none, some, List, arith, Option-cases, Key,
  key_eq, key_eq→eq, key_eq_refl, lookup, delete, lookup-insert,
}
use go_oam.Ws.Client.{
  Client, connect, close, close_conn, shut, tell_state, tell_error, on_connection_lost, read_ends,
}

-- A connection is open, and the client holds it.
abbrev pub live_in : List (Key × Bool) → Key → Bool
live_in loops id = elim (lookup id loops) [ none ↦ false | some open_now ↦ open_now ]

abbrev pub held_by : Option Key → Key → Bool
held_by none id = false
held_by (some held) id = key_eq id held

-- What happens to a client, `dials` with the id of a connection.
pub data Event (E : Type 0) : Type 0 where
  dials : Option E → Key → Event E
  closes : Event E
  drops : Key → Event E
  stalls : Event E

module _ {E : Type 0} where
  -- `stalls` is the third ping without an answer.
  unfoldable pub step : Client E → Event E → Client E
  unfolding connect close read_ends close_conn
  step c (dials dial id) = (connect c dial id).1
  step c closes = close c
  step c (drops id) = (read_ends c id).1
  step c stalls = close_conn c

  abbrev pub AreNew : Client E → Event E → Type 0
  AreNew c (dials dial id) = lookup id c.loops ≡ none
  AreNew c closes = Unit {0}
  AreNew c (drops id) = Unit {0}
  AreNew c stalls = Unit {0}

pub data Reach {E : Type 0} (c : Client E) : Client E → Type 0 where
  here : Reach c c
  after :
      {g k : Client E} (event : Event E) → Reach c g → AreNew g event → k ≡ step g event → Reach c k

-- The open connection is the one that the client holds, and a client that is closed holds none.
pub record IsSingle {E : Type 0} (c : Client E) : Type 0 where
  pub one : (id : Key) → live_in c.loops id ≡ held_by c.conn id
  pub ended : c.ctx_done ≡ true → c.conn ≡ none

live_in-shut :
    (conn : Option Key) (loops : List (Key × Bool)) (id : Key)
    → live_in (shut conn loops) id ≡ live_in loops id && not (held_by conn id)
live_in-shut none loops id = ground arith
live_in-shut (some held) loops id = elim (Option-cases (lookup held loops)) [
  | inl absent ↦ ground (arith, key_eq→eq id held)
  | inr (b, there) ↦ ground (arith, lookup-insert held id false loops)
]

module _ {E : Type 0} where
  -- A second `Connect` on a client that is connected loses its connection too: the read loop of the
  -- first ends, and closes the connection that the client has by then.
  pub read_ends-connect :
      (c : Client E) (first second : Key)
      → c.ctx_done ≡ false
      → c.conn ≡ some first
      → lookup first c.loops ≡ some true
      → lookup second c.loops ≡ none
      → (let again = (connect c none second).1 in
          let d = (read_ends again first).1 in
          (again.conn ≡ some second) × (d.conn ≡ none) × (live_in d.loops second ≡ false))
  unfolding connect read_ends close_conn tell_state tell_error on_connection_lost
  read_ends-connect c first second o h l n =
      let shut_first = live_in-shut c.conn c.loops in
      let again = (connect c none second).1 in
      let waits : lookup first again.loops ≡ some false = ground (
        arith,
        key_eq→eq first second,
        lookup-insert second first true (shut c.conn c.loops),
        lookup-insert first first false c.loops,
        key_eq_refl first,
      ) in
      (
        ground arith,
        ground (arith, waits),
        ground (
          arith,
          waits,
          live_in-shut (some second) (delete first again.loops) second,
          key_eq_refl second,
        ),
      )
