-- ===== src/Store/File/Tests.antt =====
-- A directory with one message and a file that is no message.
use paho_mqtt_golang.Base.{
  ◌≡◌, ◌⊎◌, refl, [], ◌∷◌, Bytes, codes, true, none, some, if◌then◌else◌, take, str_eq, arith,
}
use paho_mqtt_golang.Base.Assoc.{lookup, bytes_eq}
use paho_mqtt_golang.Packets.Result.{ok}
use paho_mqtt_golang.Packets.Packet.{ControlPacket, puback, plain_header}
use paho_mqtt_golang.Packets.Write.{write, write_ack}
use paho_mqtt_golang.Packets.Codec.{encode_uint16, bool_to_byte}
use paho_mqtt_golang.Packets.Codec.Length.{encode_length-digits, digits}
use paho_mqtt_golang.Packets.Header.{pack, type_and_flags}
use paho_mqtt_golang.Store.File.{FileStore, fullpath, put, del, reset, calls, write_calls}
use paho_mqtt_golang.Store.File.Laws.{contents, put_lem}
use paho_mqtt_golang.Store.File.Delete.{del_and_reset_lem}
use paho_mqtt_golang.Store.File.Crash.{write_is_atomic}

abbrev ack : ControlPacket
ack = puback (record { fixed_header = plain_header 4 0; message_id = 258 })

abbrev ack_bytes : Bytes
ack_bytes = 64 ∷ 2 ∷ 1 ∷ 2 ∷ []

abbrev one_file : FileStore
one_file = record {
  directory =
      (codes "o.1.msg", record { mod_time = 3; contents = ack_bytes })
      ∷ (codes "notes", record { mod_time = 2; contents = [] })
      ∷ [];
  opened = true;
}

ack-write : (write ack).1 ≡ ok ack_bytes
unfolding write write_ack encode_uint16 pack type_and_flags bool_to_byte digits
ack-write = ground (arith, encode_length-digits 2 (omega arith))

put_lem_example :
    (st' : FileStore) × (put 9 (codes "o.258") ack one_file ≡ some st')
    × (st'.opened ≡ true)
    × ((j : Bytes)
        → contents st' j
          ≡ (if str_eq (codes "o.258") j then some (write ack).0 else contents one_file j))
put_lem_example =
    put_lem 9 (codes "o.258") ack ack_bytes one_file refl
      (record { typed = refl; two_bits = omega arith }, omega arith) ack-write

del_and_reset_lem_example :
    (contents (del (codes "o.1") one_file) (codes "o.1") ≡ none)
    × ((del (codes "o.1") one_file).opened ≡ true)
    × (contents (reset one_file) (codes "o.1") ≡ none)
    × ((reset one_file).opened ≡ true)
unfolding str_eq
del_and_reset_lem_example = del_and_reset_lem (codes "o.1") (codes "o.1") one_file refl

-- The crash is after the bytes are written, and before the file gets its name.
write_is_atomic_example :
    ((j : Bytes)
      → lookup
          (fullpath j)
          (calls 9 (take 2 (write_calls (codes "o.1") ack_bytes)) one_file.directory)
        ≡ lookup (fullpath j) one_file.directory)
    ⊎ ((j : Bytes)
        → lookup
            (fullpath j)
            (calls 9 (take 2 (write_calls (codes "o.1") ack_bytes)) one_file.directory)
          ≡ (if str_eq (codes "o.1") j
              then some (record { mod_time = 9; contents = ack_bytes })
              else lookup (fullpath j) one_file.directory))
write_is_atomic_example = write_is_atomic 2 9 (codes "o.1") ack_bytes one_file.directory
