-- ===== src/Retrieval/Faiss/Build.antt =====
-- Building, writing and loading the index of src/app/retrieval/faiss_store.py. The state is the store
-- with the two files; `mkdir` and writing a file succeed, and the lock of `build` is not modelled.
use grounded_ops_agent.Core.Effects.{◌>>=◌, ◌>>◌}
use grounded_ops_agent.Core.Effects.{Code, returns, attempted, reads, writes}
use grounded_ops_agent.Core.Errors.{key_error, assertion_error, Result, ok, raise}
use grounded_ops_agent.Prelude.{
  ℕ, zero, suc, ◌/◌, min, max, Bool, true, false, not, ◌&&◌, Option, none, some, List, [], ◌∷◌, map,
  if◌then◌else◌, length, ◌==◌, Text, nat_eq, text_eq,
}
use grounded_ops_agent.Prelude.Dict.{insert}
use grounded_ops_agent.Prelude.Float.{Float}
use grounded_ops_agent.Retrieval.Faiss.{ChunkMeta, FaissLib, FaissStore}
use grounded_ops_agent.Retrieval.Pgvector.{StoredChunk, load_all}
use grounded_ops_agent.Text.Chars.{codes}

-- The JSON object of the map file; a key may be missing in a file that is read.
pub record Sidecar : Type 0 where
  pub embedding_model : Option (Option Text)
  pub dim : Option ℕ
  pub index_type : Option Text
  pub id_map : Option (List Text)
  pub meta : Option (List (Text × ChunkMeta))

-- `json.dumps` and `json.loads` of that object; the type of the text is left open.
pub record JsonFiles (MapText : Type 0) : Type 0 where
  pub dumps_sidecar : Sidecar → MapText
  pub loads_sidecar : MapText → Result Sidecar

pub record Disk (MapText : Type 0) : Type 0 where
  pub index_file : Option (List ℕ)
  pub map_file : Option MapText

unfoldable pub meta_of : StoredChunk → ChunkMeta
meta_of c = record {
  doc_id = c.doc_id;
  source_type = c.source_type;
  title = c.title;
  content = c.content;
  char_start = c.char_start;
  char_end = c.char_end;
}

-- `{c.chunk_id: {...} for c in chunks}` on a dict that was begun.
unfoldable pub metas_from : List StoredChunk → List (Text × ChunkMeta) → List (Text × ChunkMeta)
unfolding insert meta_of
metas_from [] m = m
metas_from (c ∷ cs) m = metas_from cs (insert c.chunk_id (meta_of c) m)

abbrev pub ids_of : List StoredChunk → List Text
ids_of cs = map (λ (c : StoredChunk). c.chunk_id) cs

module _ {Index MapText : Type 0} (lib : FaissLib Index) (json : JsonFiles MapText) where
  abbrev pub State : Type 0
  State = FaissStore Index × Disk MapText

  -- `n // 39 or 1`
  abbrev pub or_one : ℕ → ℕ
  or_one zero = 1
  or_one (suc n) = suc n

  unfoldable pub new_index : (index_type : Text) (dim n : ℕ) → Index
  new_index index_type dim n =
      if index_type == codes "hnsw"
      then lib.hnsw dim 32
      else if index_type == codes "ivf"
      then lib.ivf dim (max 1 (min 100 (or_one (n / 39))))
      else lib.flat dim

  abbrev pub add_trained : List (List Float) → Result Index → Result Index
  add_trained vectors (ok index) = lib.add vectors index
  add_trained vectors (raise e) = raise e

  unfoldable pub build_sync : FaissStore Index → List (List Float) → Result Index
  unfolding new_index
  build_sync s vectors =
      let index = new_index s.index_type s.dim (length vectors) in
      add_trained vectors (if not (lib.is_trained index) then lib.train vectors index else ok index)

  unfoldable pub index_of : FaissStore Index → List StoredChunk → Result Index
  unfolding build_sync
  index_of s [] = ok (lib.flat s.dim)
  index_of s (c ∷ cs) = build_sync s (map (λ (d : StoredChunk). d.embedding) (c ∷ cs))

  unfoldable pub sidecar_of : FaissStore Index → Sidecar
  sidecar_of s = record {
    embedding_model = some s.embedding_model;
    dim = some s.dim;
    index_type = some s.index_type;
    id_map = some s.id_map;
    meta = some s.meta;
  }

  unfoldable pub files_of : Index → FaissStore Index → Disk MapText
  unfolding sidecar_of
  files_of index s = record {
    index_file = some (lib.write_index index);
    map_file = some (json.dumps_sidecar (sidecar_of s));
  }

  unfoldable pub persist : Code State Unit
  unfolding files_of
  persist (s, d) = elim s.index [
    | none ↦ (raise assertion_error, (s, d))
    | some index ↦ (ok tt, (s, files_of index s))
  ]

  -- The fields that `build` sets.
  unfoldable pub built : List StoredChunk → Text → Index → FaissStore Index → FaissStore Index
  unfolding metas_from
  built chunks embedding_model index s = record s {
    index = some index;
    id_map = ids_of chunks;
    meta = metas_from chunks [];
    embedding_model = some embedding_model;
  }

  unfoldable pub build : List StoredChunk → (embedding_model : Text) → Code State ℕ
  unfolding index_of built persist
  build chunks embedding_model = do
    s ← reads (λ (st : State). st.0)
    index ← attempted (index_of s chunks)
    writes (λ (st : State). (built chunks embedding_model index st.0, st.1))
    persist
    returns (length chunks)

  -- `sidecar[key]`
  abbrev required : {A : Type 0} → Option A → Result A
  required none = raise key_error
  required (some a) = ok a

  abbrev default : {A : Type 0} → A → Option A → A
  default a none = a
  default a (some b) = b

  abbrev is_dim : Option ℕ → ℕ → Bool
  is_dim none dim = false
  is_dim (some n) dim = n == dim

  unfoldable pub take_fields : Sidecar → Index → Code State Bool
  take_fields sidecar index = do
    writes (λ (st : State). (record st.0 { index = some index }, st.1))
    id_map ← attempted (required sidecar.id_map)
    writes (λ (st : State). (record st.0 { id_map = id_map }, st.1))
    meta ← attempted (required sidecar.meta)
    writes (λ (st : State). (
      record st.0 {
        meta = meta;
        embedding_model = default none sidecar.embedding_model;
        index_type = default st.0.index_type sidecar.index_type;
      },
      st.1,
    ))
    returns true

  unfoldable pub read_index_file :
      (same_dim : Bool) (index_bytes : List ℕ) → Sidecar → Code State Bool
  unfolding take_fields
  read_index_file false index_bytes sidecar = returns false
  read_index_file true index_bytes sidecar =
      attempted (lib.read_index index_bytes) >>= take_fields sidecar

  unfoldable pub read_sidecar : (index_bytes : List ℕ) → Sidecar → Code State Bool
  unfolding read_index_file
  read_sidecar index_bytes sidecar = do
    dim ← reads (λ (st : State). st.0.dim)
    read_index_file (is_dim sidecar.dim dim) index_bytes sidecar

  abbrev load_files : Option (List ℕ) → Option MapText → Code State Bool
  load_files none text = returns false
  load_files (some bytes) none = returns false
  load_files (some bytes) (some text) = attempted (json.loads_sidecar text) >>= read_sidecar bytes

  unfoldable pub load : Code State Bool
  unfolding read_sidecar
  load = do d ← reads (λ (st : State). st.1); load_files d.index_file d.map_file

  -- `load_all` of the database may raise.
  unfoldable pub rebuild_from_pg :
      (load_all : Result (List StoredChunk)) (embedding_model : Text) → Code State ℕ
  unfolding build
  rebuild_from_pg load_all embedding_model = do
    chunks ← attempted load_all
    build chunks embedding_model

  abbrev pub is_model : Option Text → Text → Bool
  is_model none model = false
  is_model (some m) model = m == model

  -- The rest of `ensure`, on the model that the store has once the files were read.
  unfoldable pub rebuild_unless :
      (fresh : Bool) (load_all : Result (List StoredChunk)) (embedding_model : Text)
      → Code State Unit
  unfolding rebuild_from_pg
  rebuild_unless true load_all embedding_model = returns tt
  rebuild_unless false load_all embedding_model =
      rebuild_from_pg load_all embedding_model >>= λ n. returns tt

  unfoldable pub ensure :
      (load_all : Result (List StoredChunk)) (embedding_model : Text) → Code State Unit
  unfolding load rebuild_unless
  ensure load_all embedding_model = do
    loaded ← load
    on_disk ← reads (λ (st : State). st.0.embedding_model)
    rebuild_unless (loaded && is_model on_disk embedding_model) load_all embedding_model

  -- `FaissStore(dim, index_type=...)`
  unfoldable pub new_store : (dim : ℕ) (index_type : Text) → FaissStore Index
  new_store dim index_type = record {
    dim = dim;
    index_type = index_type;
    index = none;
    id_map = [];
    meta = [];
    embedding_model = none;
  }
