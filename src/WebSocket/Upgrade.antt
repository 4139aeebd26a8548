-- ===== src/WebSocket/Upgrade.antt =====
-- The upgrade over HTTP of conn/ws.go, `Accept` and `Dial`. Texts are lists of bytes. What Go's
-- library does is a parameter: `parse_request` and `parse_response` give the header field that the
-- source reads, and the status, none where the message cannot be read; `sha1_base64` is the sum in
-- base 64; `fold` is the text by which `strings.EqualFold` compares.
use proto_q.Prelude.{
  ℕ, Bool, true, false, not, Option, none, some, List, [], ◌∷◌, ◌++◌, length, ◌==◌, if◌then◌else◌,
  ◌&&◌,
}

-- "258EAFA5-E914-47DA-95CA-C5AB0DC85B11"
abbrev pub ws_guid : List ℕ
ws_guid =
    50 ∷ 53 ∷ 56 ∷ 69 ∷ 65 ∷ 70 ∷ 65 ∷ 53 ∷ 45 ∷ 69 ∷ 57 ∷ 49 ∷ 52 ∷ 45 ∷ 52 ∷ 55 ∷ 68 ∷ 65 ∷ 45
    ∷ 57 ∷ 53 ∷ 67 ∷ 65 ∷ 45 ∷ 67 ∷ 53 ∷ 65 ∷ 66 ∷ 48 ∷ 68 ∷ 67 ∷ 56 ∷ 53 ∷ 66 ∷ 49 ∷ 49 ∷ []

-- "HTTP/1.1 101 Switching Protocols", the fields `Upgrade: websocket` and `Connection: Upgrade`,
-- and the name of the field of the key.
abbrev pub response_head : List ℕ
response_head =
    72 ∷ 84 ∷ 84 ∷ 80 ∷ 47 ∷ 49 ∷ 46 ∷ 49 ∷ 32 ∷ 49 ∷ 48 ∷ 49 ∷ 32 ∷ 83 ∷ 119 ∷ 105 ∷ 116 ∷ 99 ∷ 104
    ∷ 105 ∷ 110 ∷ 103 ∷ 32 ∷ 80 ∷ 114 ∷ 111 ∷ 116 ∷ 111 ∷ 99 ∷ 111 ∷ 108 ∷ 115 ∷ 13 ∷ 10 ∷ 85 ∷ 112
    ∷ 103 ∷ 114 ∷ 97 ∷ 100 ∷ 101 ∷ 58 ∷ 32 ∷ 119 ∷ 101 ∷ 98 ∷ 115 ∷ 111 ∷ 99 ∷ 107 ∷ 101 ∷ 116 ∷ 13
    ∷ 10 ∷ 67 ∷ 111 ∷ 110 ∷ 110 ∷ 101 ∷ 99 ∷ 116 ∷ 105 ∷ 111 ∷ 110 ∷ 58 ∷ 32 ∷ 85 ∷ 112 ∷ 103 ∷ 114
    ∷ 97 ∷ 100 ∷ 101 ∷ 13 ∷ 10 ∷ 83 ∷ 101 ∷ 99 ∷ 45 ∷ 87 ∷ 101 ∷ 98 ∷ 83 ∷ 111 ∷ 99 ∷ 107 ∷ 101
    ∷ 116 ∷ 45 ∷ 65 ∷ 99 ∷ 99 ∷ 101 ∷ 112 ∷ 116 ∷ 58 ∷ 32 ∷ []

unfoldable pub response_text : List ℕ → List ℕ
response_text accept = response_head ++ (accept ++ (13 ∷ 10 ∷ 13 ∷ 10 ∷ []))

-- What ends an upgrade: a connection, or the source's errors.
pub data Upgraded : Type 0 where
  upgraded : Upgraded
  bad_message write_refused missing_key bad_status accept_mismatch : Upgraded

-- The status of a response and its field `Sec-WebSocket-Accept`.
pub record Response : Type 0 where
  pub status : ℕ
  pub accept : List ℕ

abbrev pub same_text : List ℕ → List ℕ → Bool
same_text [] [] = true
same_text (x ∷ xs) (y ∷ ys) = (x == y) && same_text xs ys
same_text _ _ = false

module _ (sha1_base64 : List ℕ → List ℕ) where
  unfoldable pub compute_accept_key : List ℕ → List ℕ
  compute_accept_key key = sha1_base64 (key ++ ws_guid)

  -- `Accept` on an accepted socket: what it writes, none where it writes nothing, and how it ends.
  module _ (parse_request : List ℕ → Option (List ℕ)) (raw_write : List ℕ → Bool) where
    abbrev pub answer_key : List ℕ → Option (List ℕ) × Upgraded
    answer_key key =
        let response = response_text (compute_accept_key key) in
        if length key == 0
        then (none, missing_key)
        else if raw_write response
        then (some response, upgraded)
        else (none, write_refused)

    unfoldable pub accept_upgrade : List ℕ → Option (List ℕ) × Upgraded
    unfolding compute_accept_key response_text
    accept_upgrade bytes = elim (parse_request bytes) [
      | none ↦ (none, bad_message)
      | some key ↦ answer_key key
    ]

  -- `Dial` from the response on, for the key that it sent.
  module _ (parse_response : List ℕ → Option Response) (fold : List ℕ → List ℕ) where
    abbrev pub check_response : List ℕ → Response → Upgraded
    check_response key r =
        if not (r.status == 101)
        then bad_status
        else if not (same_text (fold (compute_accept_key key)) (fold r.accept))
        then accept_mismatch
        else upgraded

    unfoldable pub dial_upgrade : List ℕ → List ℕ → Upgraded
    unfolding compute_accept_key
    dial_upgrade key bytes = elim (parse_response bytes) [
      | none ↦ bad_message
      | some r ↦ check_response key r
    ]
