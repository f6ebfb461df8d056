-- ===== src/Hytale/Connect.antt =====
-- pkg/protohytale/packets_connect.go: the Connect and the Disconnect packet. A string that cannot be
-- read ends the parse without an error.
pub mod RoundTrip
use quic_relay.Prelude.{
  ℕ, ◌+◌, Bool, true, false, not, ltb, leb, ◌==◌, List, [], ◌∷◌, length, drop, if◌then◌else◌,
}
use quic_relay.Go.{Go, ok, err, panic, stuck, ◌>>=◌, Bytes, index, slice, slice_from}
use quic_relay.Hytale.{Error, connect_too_short, invalid_packet_id, Packet}
use quic_relay.Hytale.Values.{read_string}

abbrev pub connect_packet_min_size : ℕ
connect_packet_min_size = 82

pub record ConnectPacket : Type 0 where
  pub protocol_hash : Bytes
  pub client_type : ℕ
  pub uuid : Bytes
  pub language : Bytes
  pub identity_token : Bytes
  pub username : Bytes
  pub referral_data : Bytes

-- What follows ReadString at an offset: an error ends the parse with the packet so far.
abbrev pub after_string :
    ℕ
    → ConnectPacket
    → (Bytes → ℕ → Go Error ConnectPacket)
    → Go Error (Bytes × ℕ)
    → Go Error ConnectPacket
after_string offset cp next_part (ok (s, n)) = next_part s (offset + n)
after_string offset cp next_part (err e) = ok cp
after_string offset cp next_part panic = panic
after_string offset cp next_part stuck = stuck

-- A string at an offset, if there is one, and what follows; else the packet so far.
unfoldable pub string_or_stop :
    Bytes → ℕ → ConnectPacket → (Bytes → ℕ → Go Error ConnectPacket) → Go Error ConnectPacket
string_or_stop b offset cp next_part =
    if leb (length b) offset
    then ok cp
    else (slice_from b offset >>= λ rest. after_string offset cp next_part (read_string rest))

-- The rest is referral data.
unfoldable pub parse_referral : Bytes → ℕ → ConnectPacket → Go Error ConnectPacket
parse_referral b offset cp =
    if ltb offset (length b)
    then (slice_from b offset >>= λ rest. ok (record cp { referral_data = rest }))
    else ok cp

unfoldable pub parse_strings : Bytes → ConnectPacket → Go Error ConnectPacket
parse_strings b cp = string_or_stop b 49 cp λ lang o1.
    let cp1 = record cp { language = lang } in
    string_or_stop b o1 cp1 λ token o2.
      let cp2 = record cp1 { identity_token = token } in
      string_or_stop b o2 cp2
        λ username o3. parse_referral b o3 (record cp2 { username = username })

unfoldable pub parse_connect : Bytes → Go Error ConnectPacket
parse_connect b =
    if ltb (length b) connect_packet_min_size
    then err connect_too_short
    else (slice b 0 32 >>= λ hash. index b 32 >>= λ kind. slice b 33 49 >>= λ uuid.
        parse_strings b (record {
          protocol_hash = hash;
          client_type = kind;
          uuid = uuid;
          language = [];
          identity_token = [];
          username = [];
          referral_data = [];
        }))

unfoldable pub parse_connect_packet : Packet → Go Error ConnectPacket
parse_connect_packet p = if not (p.id == 0) then err invalid_packet_id else parse_connect p.payload

-- ParseDisconnect, the Reason of the packet.
unfoldable pub parse_disconnect : Bytes → Go Error Bytes
parse_disconnect b =
    if ltb 0 (length b)
    then (elim (read_string b) [
      | ok (reason, n) ↦ ok reason
      | err e ↦ ok []
      | panic ↦ panic
      | stuck ↦ stuck
    ])
    else ok []

unfoldable pub parse_disconnect_packet : Packet → Go Error Bytes
parse_disconnect_packet p =
    if not (p.id == 1) then err invalid_packet_id else parse_disconnect p.payload
