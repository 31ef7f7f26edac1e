-- ===== src/Packets/RoundTrip/Connect.antt =====
-- CONNECT: the flags, and the optional fields that they announce.
use paho_mqtt_golang.Base.{
  ℕ, ◌/◌, ◌≤◌, ◌<◌, ◌≡◌, refl, [], ◌∷◌, ◌++◌, append_assoc, append-nil, Bytes, Bool, true, false,
  ◌&&◌, ◌==◌, Bool-cases, inl, inr, if◌then◌else◌, length, bit_and, arith,
}
use paho_mqtt_golang.Base.Bits.{both, both_sound, all_below, all_below_sound}
use paho_mqtt_golang.Packets.Codec.{encode_uint16, encode_string, encode_bytes}
use paho_mqtt_golang.Packets.Codec.Fields.{
  decode_byte-cons, decode_uint16-encode_uint16, decode_string_short, decode_bytes_short,
}
use paho_mqtt_golang.Packets.Header.{FixedHeader}
use paho_mqtt_golang.Packets.Packet.{ConnectPacket, empty_connect}
use paho_mqtt_golang.Packets.Write.{connect_flags, connect_body}
use paho_mqtt_golang.Packets.Unpack.{
  unpacked, flag, with_flags, unpack_will, unpack_username, unpack_password, unpack_options,
  unpack_connect,
}

abbrev same : Bool → Bool → Bool
same true b = b
same false true = false
same false false = true

-- The flags are read back from their byte.
abbrev flags_kept : Bool → Bool → Bool → Bool → Bool → ℕ → Bool
flags_kept cs wf wr pf uf q =
    let o = connect_flags cs wf q wr pf uf in
    bit_and 1 o == 0
    && (same (flag o 2) cs
        && (same (flag o 4) wf
            && (bit_and 3 (o / 8) == q
                && (same (flag o 32) wr && (same (flag o 64) pf && same (flag o 128) uf)))))

flags_table :
    both (λ cs.
      both (λ wf. both (λ wr. both (λ pf. both (λ uf. all_below 4 (flags_kept cs wf wr pf uf))))))
    ≡ true
unfolding all_below both connect_flags
flags_table = refl

flags_fact : (cs wf wr pf uf : Bool) (q : ℕ) → q < 4 → flags_kept cs wf wr pf uf q ≡ true
flags_fact cs wf wr pf uf q h =
    let at_cs =
      both_sound
        (λ cs.
          both
            (λ wf. both (λ wr. both (λ pf. both (λ uf. all_below 4 (flags_kept cs wf wr pf uf))))))
        cs flags_table in
    let at_wf =
      both_sound
        (λ wf. both (λ wr. both (λ pf. both (λ uf. all_below 4 (flags_kept cs wf wr pf uf))))) wf
        at_cs in
    let at_wr =
      both_sound (λ wr. both (λ pf. both (λ uf. all_below 4 (flags_kept cs wf wr pf uf)))) wr
        at_wf in
    let at_pf = both_sound (λ pf. both (λ uf. all_below 4 (flags_kept cs wf wr pf uf))) pf at_wr in
    let at_uf = both_sound (λ uf. all_below 4 (flags_kept cs wf wr pf uf)) uf at_pf in
    all_below_sound 4 (flags_kept cs wf wr pf uf) q at_uf h

-- The fields that CONNECT can carry: each fits, and what no flag announces is empty.
pub record IsConnect (c : ConnectPacket) : Type 0 where
  pub name_fits : length c.protocol_name ≤ 65535
  pub will_qos_fits : c.will_qos < 4
  pub not_reserved : c.reserved_bit ≡ 0
  pub keepalive_fits : c.keepalive < 65536
  pub identifier_fits : length c.client_identifier ≤ 65535
  pub will_topic_fits : length c.will_topic ≤ 65535
  pub will_message_fits : length c.will_message ≤ 65535
  pub username_fits : length c.username ≤ 65535
  pub password_fits : length c.password ≤ 65535
  pub no_will : c.will_flag ≡ false → (c.will_topic ≡ []) × (c.will_message ≡ [])
  pub no_username : c.username_flag ≡ false → c.username ≡ []
  pub no_password : c.password_flag ≡ false → c.password ≡ []

-- `c` with the fields of `d` as far as the optional ones.
abbrev before_will : ConnectPacket → FixedHeader → ConnectPacket
before_will c fh = record c {
  fixed_header = fh;
  will_topic = [];
  will_message = [];
  username = [];
  password = [];
}

unpack_options_lem :
    (c : ConnectPacket) (fh : FixedHeader) (r : Bytes)
    → IsConnect c
    → unpack_options (
      record (empty_connect fh) {
        protocol_name = c.protocol_name;
        protocol_version = c.protocol_version;
      },
      connect_flags c.clean_session c.will_flag c.will_qos c.will_retain c.password_flag
            c.username_flag
          ∷ r,
    )
      ≡ unpacked (record (before_will c fh) { keepalive = 0; client_identifier = [] }, r)
unfolding unpack_options with_flags empty_connect
unpack_options_lem c fh r h = ground (
  arith,
  decode_byte-cons
      (connect_flags c.clean_session c.will_flag c.will_qos c.will_retain c.password_flag
        c.username_flag)
      r,
  flags_fact c.clean_session c.will_flag c.will_retain c.password_flag c.username_flag c.will_qos
      h.will_qos_fits,
)

unpack_will_lem :
    (c : ConnectPacket) (topic message r : Bytes)
    → length topic ≤ 65535
    → length message ≤ 65535
    → c.will_topic ≡ []
    → c.will_message ≡ []
    → (c.will_flag ≡ false → (topic ≡ []) × (message ≡ []))
    → unpack_will
        (c, (if c.will_flag then encode_string topic ++ encode_bytes message else []) ++ r)
      ≡ unpacked (record c { will_topic = topic; will_message = message }, r)
unfolding unpack_will
unpack_will_lem c topic message r ht hm et em h = elim (Bool-cases c.will_flag) [
  | inl on ↦ ground (
    arith,
    append_assoc (encode_string topic) (encode_bytes message) r,
    decode_string_short topic (encode_bytes message ++ r) ht,
    decode_bytes_short message r hm,
  )
  | inr off ↦ ground (arith, h off)
]

unpack_username_lem :
    (c : ConnectPacket) (name r : Bytes)
    → length name ≤ 65535
    → c.username ≡ []
    → (c.username_flag ≡ false → name ≡ [])
    → unpack_username (c, (if c.username_flag then encode_string name else []) ++ r)
      ≡ unpacked (record c { username = name }, r)
unfolding unpack_username
unpack_username_lem c name r hn e h = elim (Bool-cases c.username_flag) [
  | inl on ↦ ground (arith, decode_string_short name r hn)
  | inr off ↦ ground (arith, h off)
]

unpack_password_lem :
    (c : ConnectPacket) (password : Bytes)
    → length password ≤ 65535
    → c.password ≡ []
    → (c.password_flag ≡ false → password ≡ [])
    → unpack_password (c, if c.password_flag then encode_bytes password else [])
      ≡ unpacked (record c { password = password }, [])
unfolding unpack_password
unpack_password_lem c password hn e h = elim (Bool-cases c.password_flag) [
  | inl on ↦ ground (arith, decode_bytes_short password [] hn, append-nil (encode_bytes password))
  | inr off ↦ ground (arith, h off)
]

abbrev will_bytes : ConnectPacket → Bytes
will_bytes c = if c.will_flag then encode_string c.will_topic ++ encode_bytes c.will_message else []

abbrev name_bytes : ConnectPacket → Bytes
name_bytes c = if c.username_flag then encode_string c.username else []

abbrev word_bytes : ConnectPacket → Bytes
word_bytes c = if c.password_flag then encode_bytes c.password else []

-- The body of CONNECT is read back as it was written.
pub unpack_connect-body :
    (c : ConnectPacket) (fh : FixedHeader)
    → IsConnect c
    → unpack_connect (empty_connect fh, connect_body c)
      ≡ unpacked (record c { fixed_header = fh }, [])
unfolding unpack_connect connect_body empty_connect
unpack_connect-body c fh h =
    let tail5 = will_bytes c ++ (name_bytes c ++ word_bytes c) in
    let tail4 = encode_string c.client_identifier ++ tail5 in
    let tail3 = encode_uint16 c.keepalive ++ tail4 in
    let flags =
      connect_flags c.clean_session c.will_flag c.will_qos c.will_retain c.password_flag
        c.username_flag in
    ground (
      arith,
      decode_string_short c.protocol_name (c.protocol_version ∷ flags ∷ tail3) h.name_fits,
      decode_byte-cons c.protocol_version (flags ∷ tail3),
      unpack_options_lem c fh tail3 h,
      decode_uint16-encode_uint16 c.keepalive tail4 h.keepalive_fits,
      decode_string_short c.client_identifier tail5 h.identifier_fits,
      unpack_will_lem (before_will c fh) c.will_topic c.will_message (name_bytes c ++ word_bytes c)
          h.will_topic_fits h.will_message_fits refl refl h.no_will,
      unpack_username_lem
          (record (before_will c fh) { will_topic = c.will_topic; will_message = c.will_message })
          c.username (word_bytes c) h.username_fits refl h.no_username,
      unpack_password_lem (record c { fixed_header = fh; password = [] }) c.password h.password_fits
          refl h.no_password,
    )
