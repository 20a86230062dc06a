-- ===== src/Codebase/Binary.antt =====
-- The binary form of `VectorDb` in src/codebase.rs. A string is its UTF-8 bytes and `from_utf8_lossy` a
-- parameter; an `f32` is its bit pattern. What `decode_binary` reads from the file is a list of bytes.
pub mod Reading
pub mod RoundTrip
use system_pilot.Abi.Words.{Endian, from_bytes, to_bytes}
use system_pilot.Base.{
  ℕ, zero, suc, ◌+◌, ◌*◌, Bool, List, [], ◌∷◌, ◌++◌, Text, text_beq, length, take, drop, leb,
}
use system_pilot.Base.Texts.{text}
use system_pilot.Codebase.Binary.Reading.{
  Outcome, ok, err, DecodeError, Reader, ◌>>=◌, ◌>>◌, done, check, read_exact, read_many,
}

pub record FileRegistry : Type 0 where
  pub file_path : List ℕ
  pub last_modified : ℕ
  pub size : ℕ

pub record DbChunk : Type 0 where
  pub file_path : List ℕ
  pub content : List ℕ
  pub start_line : ℕ
  pub end_line : ℕ
  pub embedding : List ℕ

pub record VectorDb : Type 0 where
  pub workspace_path : List ℕ
  pub embedding_source : List ℕ
  pub files : List FileRegistry
  pub chunks : List DbChunk

abbrev pub magic : List ℕ
magic = text "SYSPILOT_VDB_3"

abbrev pub max_string : ℕ
max_string = 10_485_760

abbrev pub max_records : ℕ
max_records = 1_000_000

abbrev pub max_dimension : ℕ
max_dimension = 8192

-- `to_le_bytes` of a number with that many bytes.
unfoldable pub write_uint : ℕ → ℕ → List ℕ
write_uint k n = to_bytes Endian.little k n

-- `write_str`; the length is written as a `u32`.
unfoldable pub write_str : List ℕ → List ℕ
write_str s = write_uint 4 (length s) ++ s

unfoldable pub write_all {ℓ} : {A : Type ℓ} → (A → List ℕ) → List A → List ℕ
write_all write [] = []
write_all write (a ∷ as') = write a ++ write_all write as'

unfoldable pub write_file : FileRegistry → List ℕ
write_file f = write_str f.file_path ++ (write_uint 8 f.last_modified ++ write_uint 8 f.size)

unfoldable pub write_chunk : DbChunk → List ℕ
write_chunk c =
    write_str c.file_path
    ++ (write_str c.content
        ++ (write_uint 4 c.start_line
            ++ (write_uint 4 c.end_line
                ++ (write_uint 4 (length c.embedding) ++ write_all (write_uint 4) c.embedding))))

-- What `save_to_binary` writes.
unfoldable pub encode_binary : VectorDb → List ℕ
encode_binary db =
    magic
    ++ (write_str db.workspace_path
        ++ (write_str db.embedding_source
            ++ (write_uint 4 (length db.files)
                ++ (write_all write_file db.files
                    ++ (write_uint 4 (length db.chunks) ++ write_all write_chunk db.chunks)))))

-- `from_le_bytes` of the next bytes.
unfoldable pub read_uint : ℕ → Reader ℕ
read_uint k = do bytes ← read_exact k; done (from_bytes Endian.little bytes)

-- `checked_count`.
unfoldable pub checked_count : ℕ → ℕ → Reader (Unit {0})
checked_count limit count = check (leb count limit)

-- The vector of a chunk, from the bytes of its coordinates.
unfoldable pub floats : ℕ → List ℕ → List ℕ
floats zero bytes = []
floats (suc n) bytes = from_bytes Endian.little (take 4 bytes) ∷ floats n (drop 4 bytes)

abbrev pub first {ℓ κ} : {A : Type ℓ} {B : Type κ} → Outcome (A × B) → Outcome A
first (ok (a, b)) = ok a
first (err e) = err e

module _ (from_utf8_lossy : List ℕ → List ℕ) where
  -- `read_str`.
  unfoldable pub read_str : Reader (List ℕ)
  read_str = do
    n ← read_uint 4
    check (leb n max_string)
    bytes ← read_exact n
    done (from_utf8_lossy bytes)

  unfoldable pub read_file : Reader FileRegistry
  read_file = do
    path ← read_str
    modified ← read_uint 8
    size ← read_uint 8
    done (record { file_path = path; last_modified = modified; size = size })

  unfoldable pub read_chunk : Reader DbChunk
  read_chunk = do
    path ← read_str
    content ← read_str
    start ← read_uint 4
    end ← read_uint 4
    n ← read_uint 4
    check (leb n max_dimension)
    bytes ← read_exact (n * 4)
    done (record {
      file_path = path;
      content = content;
      start_line = start;
      end_line = end;
      embedding = floats n bytes;
    })

  -- What follows the strings, which are known.
  unfoldable pub read_records : List ℕ → List ℕ → Reader VectorDb
  read_records workspace source = do
    n ← read_uint 4
    checked_count max_records n
    files ← read_many n read_file
    m ← read_uint 4
    checked_count max_records m
    chunks ← read_many m read_chunk
    done (record {
      workspace_path = workspace;
      embedding_source = source;
      files = files;
      chunks = chunks;
    })

  -- What follows the mark of the format.
  unfoldable pub read_body : Reader VectorDb
  read_body = do workspace ← read_str; source ← read_str; read_records workspace source

  unfoldable pub read_index : Reader VectorDb
  read_index = do mark ← read_exact 14; check (text_beq mark magic); read_body

  -- `decode_binary`, of a file that can be read; what follows the index is not looked at.
  unfoldable pub decode_binary : List ℕ → Outcome VectorDb
  decode_binary bytes = first (read_index bytes)
