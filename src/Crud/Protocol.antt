-- ===== src/Crud/Protocol.antt =====
-- The frames of the network (C/src/dcrud/IProtocol.h): a signature, the type of the frame, and what
-- the type asks for.
use dcrud.Base.{ℕ, ◌+◌, ◌-◌, ◌*◌, List, [], ◌∷◌}

-- `DCRUD_SIGNATURE`
abbrev pub signature : List ℕ
signature = 68 ∷ 67 ∷ 82 ∷ 85 ∷ 68 ∷ []

abbrev pub signature_size : ℕ
signature_size = 5

abbrev pub guid_size : ℕ
guid_size = 4 + 4

abbrev pub class_id_size : ℕ
class_id_size = 1 + 1 + 1 + 1

-- `HEADER_SIZE`
abbrev pub header_size : ℕ
header_size = signature_size + 1 + 4 + guid_size + class_id_size

-- `PAYLOAD_SIZE`
abbrev pub payload_size : ℕ
payload_size = 64 * 1024 - header_size

-- `FrameType`
pub data FrameType : Type 0 where
  no_op : FrameType
  data_create_or_update : FrameType
  data_delete : FrameType
  operation : FrameType

-- The number of a type, as the frame has it.
abbrev pub code : FrameType → ℕ
code no_op = 0
code data_create_or_update = 1
code data_delete = 2
code operation = 3
