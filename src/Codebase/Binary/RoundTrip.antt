-- ===== src/Codebase/Binary/RoundTrip.antt =====
-- An index of src/codebase.rs that is written and read back is the same index.
use system_pilot.Abi.Words.{Endian, from_bytes, to_bytes, from_bytes-to_bytes, length-to_bytes}
use system_pilot.Base.{
  ℕ, ◌*◌, ◌^◌, ◌≤◌, ◌<◌, ◌≡◌, refl, ap, subst, List, [], ◌∷◌, ◌++◌, All, length, length-append,
  take_exact, drop_exact, leb, arith, text_beq,
}
use system_pilot.Codebase.Binary.Reading.{
  ok, Reader, ◌>>=◌, done, Reads, Reads->>=, Reads-done, Reads-check, check, done-Reads,
  Reads-exactly, read_exact, read_exact-Reads, read_many,
}
use system_pilot.Codebase.Binary.{
  DbChunk, FileRegistry, VectorDb, checked_count, decode_binary, encode_binary, first, floats,
  magic, max_dimension, max_records, max_string, read_chunk, read_body, read_file, read_index,
  read_records, read_str, read_uint, write_all, write_chunk, write_file, write_str, write_uint,
}

length-write_uint : (k n : ℕ) → length (write_uint k n) ≡ k
unfolding write_uint
length-write_uint k n = length-to_bytes Endian.little k n

read_uint-Reads : (k n : ℕ) → n < 256 ^ k → Reads (read_uint k) (write_uint k n) n
unfolding read_uint write_uint
read_uint-Reads k n h =
    let bytes = to_bytes Endian.little k n in
    let read =
      Reads-done (read_exact k) (from_bytes Endian.little) bytes bytes
        (read_exact-Reads bytes k (length-to_bytes Endian.little k n)) in
    subst (Reads (read_uint k) bytes) (from_bytes-to_bytes Endian.little k n h) read

read_many-Reads {ℓ} :
    {A : Type 0} (r : Reader A) (write : A → List ℕ) (P : A → Type ℓ)
    → ((a : A) → P a → Reads r (write a) a)
    → (as' : List A) → All P as'
    → Reads (read_many (length as') r) (write_all write as') as'
unfolding read_many write_all
read_many-Reads r write P each [] p = done-Reads []
read_many-Reads r write P each (a ∷ as') p =
    Reads->>= r _ (write a) (write_all write as') a (a ∷ as') (each a p.0) (
      Reads-done (read_many (length as') r) (λ bs. a ∷ bs) (write_all write as') as'
        (read_many-Reads r write P each as' p.1))

floats-write_all :
    (fs : List ℕ)
    → All (λ n. n < 256 ^ 4) fs
    → floats (length fs) (write_all (write_uint 4) fs) ≡ fs
unfolding floats write_all write_uint
floats-write_all [] h = refl
floats-write_all (f ∷ fs) h =
    let bytes = to_bytes Endian.little 4 f in
    let after = write_all (write_uint 4) fs in
    rw
      (
        take_exact bytes after 4 (length-to_bytes Endian.little 4 f),
        drop_exact bytes after 4 (length-to_bytes Endian.little 4 f),
        from_bytes-to_bytes Endian.little 4 f h.0,
      )
      (ap (◌∷◌ f) (floats-write_all fs h.1))

length-write_all : (fs : List ℕ) → length (write_all (write_uint 4) fs) ≡ length fs * 4
unfolding write_all
length-write_all [] = omega arith
length-write_all (f ∷ fs) = omega (
  arith,
  length-append (write_uint 4 f) (write_all (write_uint 4) fs),
  length-write_uint 4 f,
  length-write_all fs,
)

module _ (from_utf8_lossy : List ℕ → List ℕ) where
  -- The bytes of a string that is short enough.
  pub record IsString (s : List ℕ) : Type 0 where
    pub short : length s ≤ max_string
    pub utf8 : from_utf8_lossy s ≡ s

  pub record IsFile (f : FileRegistry) : Type 0 where
    pub path : IsString f.file_path
    pub modified : f.last_modified < 2 ^ 64
    pub size : f.size < 2 ^ 64

  pub record IsChunk (c : DbChunk) : Type 0 where
    pub path : IsString c.file_path
    pub content : IsString c.content
    pub start : c.start_line < 2 ^ 32
    pub end : c.end_line < 2 ^ 32
    pub dimension : length c.embedding ≤ max_dimension
    pub floats : All (λ n. n < 2 ^ 32) c.embedding

  -- An index within the limits that the reader sets.
  pub record IsStorable (db : VectorDb) : Type 0 where
    pub workspace : IsString db.workspace_path
    pub source : IsString db.embedding_source
    pub few_files : length db.files ≤ max_records
    pub few_chunks : length db.chunks ≤ max_records
    pub files : All IsFile db.files
    pub chunks : All IsChunk db.chunks

  read_str-Reads : (s : List ℕ) → IsString s → Reads (read_str from_utf8_lossy) (write_str s) s
  unfolding read_str write_str
  read_str-Reads s h =
      Reads->>= (read_uint 4) _ (write_uint 4 (length s)) s (length s) s
        (read_uint-Reads 4 (length s) (omega (arith, h.short)))
        (Reads->>= (check (leb (length s) max_string)) _ [] s tt s
          (Reads-check (ground (arith, h.short)))
          (subst (Reads (read_exact (length s) >>= λ b. done (from_utf8_lossy b)) s) h.utf8 (
            Reads-done (read_exact (length s)) from_utf8_lossy s s
              (read_exact-Reads s (length s) refl))))

  read_file-Reads :
      (f : FileRegistry) → IsFile f → Reads (read_file from_utf8_lossy) (write_file f) f
  unfolding read_file write_file
  read_file-Reads f h =
      Reads->>= (read_str from_utf8_lossy) _ (write_str f.file_path) _ f.file_path f
        (read_str-Reads f.file_path h.path)
        (Reads->>= (read_uint 8) _ (write_uint 8 f.last_modified) _ f.last_modified f
          (read_uint-Reads 8 f.last_modified h.modified)
          (Reads-done (read_uint 8)
            (λ n. record { file_path = f.file_path; last_modified = f.last_modified; size = n })
            (write_uint 8 f.size) f.size (read_uint-Reads 8 f.size h.size)))

  -- The last step of a chunk: the bytes of its vector.
  abbrev read_embedding : DbChunk → Reader DbChunk
  read_embedding c = read_exact (length c.embedding * 4) >>= λ b.
      done (record c { embedding = floats (length c.embedding) b })

  read_embedding-Reads :
      (c : DbChunk) → IsChunk c → Reads (read_embedding c) (write_all (write_uint 4) c.embedding) c
  read_embedding-Reads c h =
      let bytes = write_all (write_uint 4) c.embedding in
      subst (Reads (read_embedding c) bytes)
        (ap (λ v. record c { embedding = v }) (floats-write_all c.embedding h.floats))
        (Reads-done (read_exact (length c.embedding * 4))
          (λ b. record c { embedding = floats (length c.embedding) b }) bytes bytes
          (read_exact-Reads bytes (length c.embedding * 4) (length-write_all c.embedding)))

  read_chunk-Reads :
      (c : DbChunk) → IsChunk c → Reads (read_chunk from_utf8_lossy) (write_chunk c) c
  unfolding read_chunk write_chunk
  read_chunk-Reads c h =
      Reads->>= (read_str from_utf8_lossy) _ (write_str c.file_path) _ c.file_path c
        (read_str-Reads c.file_path h.path)
        (Reads->>= (read_str from_utf8_lossy) _ (write_str c.content) _ c.content c
          (read_str-Reads c.content h.content)
          (Reads->>= (read_uint 4) _ (write_uint 4 c.start_line) _ c.start_line c
            (read_uint-Reads 4 c.start_line h.start)
            (Reads->>= (read_uint 4) _ (write_uint 4 c.end_line) _ c.end_line c
              (read_uint-Reads 4 c.end_line h.end)
              (Reads->>= (read_uint 4) _ (write_uint 4 (length c.embedding)) _ (length c.embedding)
                c (read_uint-Reads 4 (length c.embedding) (omega (arith, h.dimension)))
                (Reads->>= (check (leb (length c.embedding) max_dimension)) _ [] _ tt c
                  (Reads-check (ground (arith, h.dimension))) (read_embedding-Reads c h))))))

  -- The chunks, after all that stands before them.
  read_chunks-Reads :
      (db : VectorDb)
      → IsStorable db
      → Reads
          (read_many (length db.chunks) (read_chunk from_utf8_lossy) >>= λ cs.
            done (record db { chunks = cs }))
          (write_all write_chunk db.chunks)
          db
  read_chunks-Reads db h =
      Reads-done (read_many (length db.chunks) (read_chunk from_utf8_lossy))
        (λ cs. record db { chunks = cs }) (write_all write_chunk db.chunks) db.chunks
        (read_many-Reads (read_chunk from_utf8_lossy) write_chunk IsChunk read_chunk-Reads db.chunks
          h.chunks)

  -- The bytes that follow the strings of an index.
  abbrev write_records : VectorDb → List ℕ
  write_records db =
      write_uint 4 (length db.files)
      ++ (write_all write_file db.files
          ++ (write_uint 4 (length db.chunks) ++ write_all write_chunk db.chunks))

  read_records-Reads :
      (db : VectorDb)
      → IsStorable db
      → Reads
          (read_records from_utf8_lossy db.workspace_path db.embedding_source)
          (write_records db)
          db
  unfolding read_records checked_count
  read_records-Reads db h =
      Reads->>= (read_uint 4) _ (write_uint 4 (length db.files)) _ (length db.files) db
        (read_uint-Reads 4 (length db.files) (omega (arith, h.few_files)))
        (Reads->>= (check (leb (length db.files) max_records)) _ [] _ tt db
          (Reads-check (ground (arith, h.few_files)))
          (Reads->>= (read_many (length db.files) (read_file from_utf8_lossy)) _
            (write_all write_file db.files) _ db.files db
            (read_many-Reads (read_file from_utf8_lossy) write_file IsFile read_file-Reads db.files
              h.files)
            (Reads->>= (read_uint 4) _ (write_uint 4 (length db.chunks)) _ (length db.chunks) db
              (read_uint-Reads 4 (length db.chunks) (omega (arith, h.few_chunks)))
              (Reads->>= (check (leb (length db.chunks) max_records)) _ [] _ tt db
                (Reads-check (ground (arith, h.few_chunks))) (read_chunks-Reads db h)))))

  read_body-Reads :
      (db : VectorDb)
      → IsStorable db
      → Reads
          (read_body from_utf8_lossy)
          (write_str db.workspace_path ++ (write_str db.embedding_source ++ write_records db))
          db
  unfolding read_body
  read_body-Reads db h =
      Reads->>= (read_str from_utf8_lossy) _ (write_str db.workspace_path) _ db.workspace_path db
        (read_str-Reads db.workspace_path h.workspace)
        (Reads->>= (read_str from_utf8_lossy) _ (write_str db.embedding_source) _
          db.embedding_source db (read_str-Reads db.embedding_source h.source)
          (read_records-Reads db h))

  read_index-Reads :
      (db : VectorDb) → IsStorable db → Reads (read_index from_utf8_lossy) (encode_binary db) db
  unfolding read_index encode_binary
  read_index-Reads db h =
      Reads->>= (read_exact 14)
        (λ mark. check (text_beq mark magic) >>= λ _. read_body from_utf8_lossy) magic _ magic db
        (read_exact-Reads magic 14 refl) (read_body-Reads db h)

  -- An index within the limits of the reader, whatever follows it in its file, is read back as it was
  -- written.
  pub decode_binary-encode_binary :
      (db : VectorDb) (rest : List ℕ)
      → IsStorable db
      → decode_binary from_utf8_lossy (encode_binary db ++ rest) ≡ ok db
  unfolding decode_binary
  decode_binary-encode_binary db rest h = ap first (
      Reads-exactly (read_index from_utf8_lossy) (encode_binary db) db rest (read_index-Reads db h))
