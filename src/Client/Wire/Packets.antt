-- ===== src/Client/Wire/Packets.antt =====
-- A message that fits in the receiver's buffer arrives as it was sent.
use cs416_tanks.Base.{Bool, ◌≡◌, ◌≤◌, length, take_all, some, arith}
use cs416_tanks.Base.Bytes.{Bytes}
use cs416_tanks.Client.Wire.{Codec, buffer_size, send_message, receive_message}

-- What is decoded is what was encoded.
pub record IsFaithful {A : Type 0} (c : Codec A) : Type 0 where
  pub decodes : (a : A) (buf : Bytes) → c.encode a ≡ some buf → c.decode buf ≡ some a
  pub unpacks : (a : A) → c.unpack_receive (c.prepare_send a) ≡ a

-- With faithful encodings, a packet that `SendMessage` has written and that is no longer than the
-- buffer of 1024 bytes is read by `ReceiveMessage` as the same message, logged or not.
pub send_receive :
    {A : Type 0} (c : Codec A) (log_updates written : Bool) (msg : A) (buf : Bytes)
    → IsFaithful c
    → send_message c log_updates written msg ≡ some buf
    → length buf ≤ buffer_size
    → receive_message c log_updates (some buf) ≡ some msg
unfolding send_message receive_message
send_receive c log_updates written msg buf faithful sent fits =
    ground (arith, take_all buffer_size buf fits, faithful.decodes msg buf, faithful.unpacks msg)
