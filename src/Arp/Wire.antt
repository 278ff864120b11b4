-- ===== src/Arp/Wire.antt =====
-- The bytes of an ARP message.
use ns_stack.Base.{ℕ, ◌≡◌, some, List, ◌++◌}
use ns_stack.Bytes.{word16-read, word32-read}
use ns_stack.Frame.Wire.{IsMac, six}
use ns_stack.Arp.{EtherArp, to_bytes, op_of, sender_of}

-- What the handler reads of the bytes of a message.
pub read-to_bytes :
    (p : EtherArp) (rest : List ℕ)
    → IsMac p.sha
    → IsMac p.tha
    → (op_of (to_bytes p ++ rest) ≡ some p.op)
      × (sender_of (to_bytes p ++ rest) ≡ some (record { sha = p.sha; spa = p.spa }))
unfolding op_of sender_of to_bytes
read-to_bytes p rest s t = go p.sha p.tha s t
  where
    go :
        (sha tha : List ℕ)
        → IsMac sha
        → IsMac tha
        → let q : EtherArp = record p { sha = sha; tha = tha } in
          (op_of (to_bytes q ++ rest) ≡ some p.op)
          × (sender_of (to_bytes q ++ rest) ≡ some (record { sha = sha; spa = p.spa }))
    go sha tha (six a b c d e f) (six g h i j k l) = (simp word16-read, simp word32-read)
