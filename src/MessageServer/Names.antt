-- ===== src/MessageServer/Names.antt =====
-- The names of clients in server/message_server.go, and its tables.
use proto_q.Prelude.{
  ℕ, zero, suc, ◌+◌, ◌-◌, ◌*◌, ◌/◌, ◌%◌, ◌^◌, ◌<◌, ◌≡◌, refl, ap, sym, ◌∙◌, arith, Bool, Bool-cases,
  inl, inr, List, [], ◌∷◌, ◌++◌, ◌==◌, ==_iff, if◌then◌else◌, none, find, drop, erase-absent, put,
  erase-put,
}
use proto_q.Errors.{ok, panic, ◌>>=◌}
use proto_q.Connection.{new_conn, new_conn_with_id}
use proto_q.MessageServer
use proto_q.Register
use proto_q.MessageServer.{
  MessageServer, format_digits, format_uint64, client_prefix, format_client_id, attach, detach,
  start_serve,
}
use proto_q.Register.{add_connection, remove_connection}

-- The value of decimal digits, after those that gave `v`.
unfoldable pub parse_from : ℕ → List ℕ → ℕ
parse_from v [] = v
parse_from v (d ∷ ds) = parse_from (v * 10 + (d - 48)) ds

tens : ℕ → ℕ
tens zero = 1
tens (suc n) = tens n * 10

format_digits-parse_from :
    (room v : ℕ) (digits : List ℕ)
    → v < tens room
    → (ds : List ℕ) × (format_digits room v digits ≡ ok ds)
      × (parse_from 0 ds ≡ parse_from v digits)
unfolding format_digits parse_from tens
format_digits-parse_from zero v digits h =
    let z : v ≡ 0 = omega (arith, h) in (digits, rw z refl, rw z refl)
format_digits-parse_from (suc room) v digits h = elim (Bool-cases (v == 0)) [
  | inl z ↦
      (digits, rw (format_digits, z) refl, ap (λ n. parse_from n digits) (sym ((==_iff v 0).0 z)))
  | inr some_digit ↦
      let (ds, formats, parses) =
        format_digits-parse_from room (v / 10) ((48 + v % 10) ∷ digits) (omega (arith, h)) in
      let same : v / 10 * 10 + (48 + v % 10 - 48) ≡ v = omega arith in
      let goes : format_digits (suc room) v digits
          ≡ format_digits room (v / 10) ((48 + v % 10) ∷ digits) =
        ap
          (λ (b : Bool).
            if b then ok digits else format_digits room (v / 10) ((48 + v % 10) ∷ digits))
          some_digit in
      (ds, goes ∙ formats, parses ∙ ap (λ n. parse_from n digits) same)
]

-- `formatUint64` of any uint64 returns, without a panic, digits that have its value.
pub format_uint64-parse_from :
    (v : ℕ) → v < 2 ^ 64 → (ds : List ℕ) × (format_uint64 v ≡ ok ds) × (parse_from 0 ds ≡ v)
unfolding format_uint64 parse_from tens
format_uint64-parse_from v h = elim (Bool-cases (v == 0)) [
  | inl z ↦ (48 ∷ [], rw (format_uint64, z) refl, sym ((==_iff v 0).0 z))
  | inr some_digit ↦
      let (ds, formats, parses) = format_digits-parse_from 20 v [] (omega (arith, h)) in
      let goes : format_uint64 v ≡ format_digits 20 v [] =
        ap (λ (b : Bool). if b then ok (48 ∷ []) else format_digits 20 v []) some_digit in
      (ds, goes ∙ formats, parses)
]

name_lem :
    (v : ℕ)
    → v < 2 ^ 64
    → (ds : List ℕ) × (format_client_id v ≡ ok (client_prefix ++ ds)) × (parse_from 0 ds ≡ v)
unfolding format_client_id
name_lem v h =
    let (ds, formats, parses) = format_uint64-parse_from v h in
    (ds, ap (λ r. r >>= (λ digits. ok (client_prefix ++ digits))) formats, parses)

-- Each uint64 has a client name, without a panic, and different numbers have different names.
pub format_client_id_injective :
    (v w : ℕ)
    → v < 2 ^ 64
    → w < 2 ^ 64
    → (name : List ℕ) × (format_client_id v ≡ ok name) × (format_client_id w ≡ ok name → v ≡ w)
format_client_id_injective v w h h' =
    let (ds, formats, parses) = name_lem v h in
    let (es, formats', parses') = name_lem w h' in
    (
      client_prefix ++ ds,
      formats,
      λ same.
          let named : ok (client_prefix ++ es) ≡ ok (client_prefix ++ ds) = sym formats' ∙ same in
          let names : client_prefix ++ es ≡ client_prefix ++ ds = cc in
          sym parses ∙ (ap (λ t. parse_from 0 (drop 5 t)) (sym names) ∙ parses'),
    )

module _ (client_of : List ℕ → ℕ) where
  -- `Serve` panics on every socket: it makes the connection's context from a nil parent.
  pub start_serve-panic :
      (bridge conn : ℕ) (s : MessageServer) → start_serve client_of bridge conn s ≡ panic
  unfolding start_serve new_conn_with_id new_conn
  start_serve-panic bridge conn s = refl

  -- `ServeConn` of a connection whose bridge and whose client's name are in no table: while it runs
  -- both tables have one entry more, and after it the server is as before.
  pub detach-attach :
      (bridge conn id : ℕ) (name : List ℕ) (s : MessageServer)
      → format_client_id id ≡ ok name
      → find bridge s.bridges ≡ none
      → find (client_of name) s.beans.connections ≡ none
      → (s' : MessageServer) × (attach client_of bridge conn id s ≡ ok s')
        × (MessageServer.connection_count s' ≡ MessageServer.connection_count s + 1)
        × (Register.connection_count s'.beans ≡ Register.connection_count s.beans + 1)
        × (detach client_of bridge id s' ≡ ok s)
  unfolding attach detach add_connection remove_connection MessageServer.connection_count
      Register.connection_count put
  detach-attach bridge conn id name s named fresh new_name = (
    record s {
      beans = record s.beans { connections = put (client_of name) conn s.beans.connections };
      bridges = put bridge conn s.bridges;
    },
    rw (attach, named) refl,
    rw (erase-absent bridge s.bridges fresh) (omega arith),
    rw (erase-absent (client_of name) s.beans.connections new_name) (omega arith),
    rw
        (
          detach,
          named,
          erase-put bridge conn s.bridges fresh,
          erase-put (client_of name) conn s.beans.connections new_name,
        )
        refl,
  )
