-- ===== src/Retrieval/Faiss/Tests.antt =====
-- A table of two chunks, an index that is its bytes, and a map file that is its object.
use grounded_ops_agent.Prelude.Equality.{text_beq}
use grounded_ops_agent.Core.Errors.{ok}
use grounded_ops_agent.Prelude.{
  ℕ, ◌≤◌, ◌≡◌, refl, true, Option, none, some, List, [], ◌∷◌, ◌++◌, map, arith, length, take, All,
  Text, nat_eq, text_eq, Distinct,
}
use grounded_ops_agent.Prelude.Dict.{lookup, insert}
use grounded_ops_agent.Prelude.Float.{Float, zero_float}
use grounded_ops_agent.Prelude.Int.{pos}
use grounded_ops_agent.Retrieval.Faiss.{
  FaissLib, FaissStore, store_size, passes, hit_chunk, meta_at, collect, search, search-IsAllowed,
}
use grounded_ops_agent.Retrieval.Faiss.Build.{
  Sidecar, JsonFiles, Disk, meta_of, metas_from, ids_of, State, new_index, build_sync, index_of,
  files_of, persist, built, build, load, ensure, new_store,
}
use grounded_ops_agent.Retrieval.Faiss.Ensured.{build_step, Reach, first_start, next}
use grounded_ops_agent.Retrieval.Faiss.Persisted.{RoundTrips, load-build}
use grounded_ops_agent.Retrieval.Faiss.Ready.{IsReliable, search_reachable, IsReady, ensure_total}
use grounded_ops_agent.Retrieval.Faiss.Refined.{expected, IsPosition, search-build}
use grounded_ops_agent.Retrieval.Pgvector.{StoredChunk}
use grounded_ops_agent.Retrieval.Types.{
  RetrievedChunk, SearchFilters, member_or_any, allows, is_empty, IsAllowed,
}
use grounded_ops_agent.Text.Chars.{codes}
use grounded_ops_agent.Core.Errors.{assertion_error, Result, raise}
use grounded_ops_agent.Prelude.{
  sym, subst, inl, inr, Bool, false, ◌&&◌, leb, if◌then◌else◌, Bool-cases, ◌==◌,
}
use grounded_ops_agent.Retrieval.Faiss.Ready.{HasDim, HasEmbeddings}

abbrev pub bytes_lib : FaissLib (List ℕ)
bytes_lib = record {
  hnsw = λ dim links. [];
  ivf = λ dim nlist. [];
  flat = λ dim. [];
  is_trained = λ i. true;
  train = λ vectors i. ok i;
  add = λ vectors i. ok (i ++ map length vectors);
  index_search =
      λ i v n. ok ((zero_float, some 1) ∷ (zero_float, none) ∷ (zero_float, some 0) ∷ []);
  write_index = λ i. i;
  read_index = λ bytes. ok bytes;
}

abbrev object_files : JsonFiles Sidecar
object_files = record { dumps_sidecar = λ x. x; loads_sidecar = λ x. ok x }

object_files-RoundTrips : RoundTrips bytes_lib object_files
object_files-RoundTrips = record { index = λ i. refl; sidecar = λ x. refl }

abbrev stored : Text → Text → StoredChunk
stored id kind = record {
  chunk_id = id;
  doc_id = codes "d";
  source_type = kind;
  title = [];
  content = codes "text";
  char_start = pos 0;
  char_end = pos 4;
  embedding = zero_float ∷ [];
}

abbrev corpus : List StoredChunk
corpus = stored (codes "a") (codes "ticket") ∷ stored (codes "b") (codes "runbook") ∷ []

corpus-Distinct : Distinct (ids_of corpus)
unfolding text_beq
corpus-Distinct = (refl, (refl, tt))

abbrev empty_store : FaissStore (List ℕ)
empty_store = record {
  dim = 1;
  index_type = codes "flat";
  index = none;
  id_map = [];
  meta = [];
  embedding_model = none;
}

abbrev no_files : Disk Sidecar
no_files = record { index_file = none; map_file = none }

abbrev built_store : FaissStore (List ℕ)
built_store = built bytes_lib object_files corpus (codes "m") (1 ∷ 1 ∷ []) empty_store

abbrev written : Disk Sidecar
written = files_of bytes_lib object_files (1 ∷ 1 ∷ []) built_store

built_once :
    build bytes_lib object_files corpus (codes "m") (empty_store, no_files)
    ≡ (ok 2, (built_store, written))
unfolding build index_of build_sync new_index built persist files_of text_beq
built_once = refl

load-build_example :
    load bytes_lib object_files (empty_store, written) ≡ (ok true, (built_store, written))
load-build_example =
    load-build bytes_lib object_files object_files-RoundTrips corpus (codes "m") empty_store
      empty_store no_files refl built_once

abbrev hits : List (Float × Option ℕ)
hits = (zero_float, some 1) ∷ (zero_float, none) ∷ (zero_float, some 0) ∷ []

built_store-index : built_store.index ≡ some (1 ∷ 1 ∷ [])
unfolding built
built_store-index = refl

search-build_example :
    search bytes_lib built_store [] 1 none ≡ ok (take 1 (expected corpus none hits))
search-build_example =
    search-build bytes_lib object_files corpus (codes "m") empty_store no_files [] 1 none hits
      built_once corpus-Distinct (omega arith) built_store-index refl
      (omega arith, (tt, (omega arith, tt)))

abbrev runbooks : Option SearchFilters
runbooks = some (record { source_types = some (codes "runbook" ∷ []); doc_ids = none })

abbrev runbook_hits : List RetrievedChunk
runbook_hits =
    hit_chunk (codes "b") (meta_of (stored (codes "b") (codes "runbook"))) zero_float ∷ []

search-runbooks : search bytes_lib built_store [] 2 runbooks ≡ ok runbook_hits
unfolding built metas_from meta_of search allows member_or_any text_beq is_empty passes meta_at
    collect lookup insert
search-runbooks = refl

search-IsAllowed_example : All (IsAllowed runbooks) runbook_hits × (length runbook_hits ≤ 2)
search-IsAllowed_example =
    search-IsAllowed bytes_lib built_store runbooks [] 2 runbook_hits (omega arith) search-runbooks

abbrev started : State bytes_lib object_files
started = (new_store bytes_lib object_files 1 (codes "flat"), no_files)

abbrev after_build : State bytes_lib object_files
after_build = (build bytes_lib object_files corpus (codes "m") started).1

after_build-Reach : Reach bytes_lib object_files after_build
after_build-Reach = next (first_start 1 (codes "flat")) (build_step corpus (codes "m") started)

after_build-index : after_build.0.index ≡ some (1 ∷ 1 ∷ [])
unfolding build index_of build_sync new_index built persist files_of text_beq new_store
after_build-index = refl

after_build-positions : All (IsPosition (store_size after_build.0)) hits
unfolding build index_of build_sync new_index built persist files_of text_beq new_store
after_build-positions = (omega arith, (tt, (omega arith, tt)))

search_reachable_example :
    (cs : List RetrievedChunk) × (search bytes_lib after_build.0 [] 2 runbooks ≡ ok cs)
search_reachable_example =
    search_reachable bytes_lib object_files object_files-RoundTrips after_build (1 ∷ 1 ∷ []) [] 2
      runbooks hits after_build-Reach after_build-index refl after_build-positions

-- An inverted file that is its dimension, its number of clusters and whether it is trained.
pub record Inverted : Type 0 where
  pub dim : ℕ
  pub clusters : ℕ
  pub trained : Bool

abbrev trained_index : (dim : ℕ) → Inverted
trained_index dim = record { dim = dim; clusters = 0; trained = true }

abbrev taken : (takes : Bool) → Inverted → Result Inverted
taken true i = ok (record i { trained = true })
taken false i = raise assertion_error

abbrev have_dim : ℕ → List (List Float) → Bool
have_dim dim [] = true
have_dim dim (v ∷ vs) = (length v == dim) && have_dim dim vs

abbrev read_inverted : List ℕ → Result Inverted
read_inverted [] = raise assertion_error
read_inverted (n ∷ []) = raise assertion_error
read_inverted (n ∷ m ∷ []) = raise assertion_error
read_inverted (n ∷ m ∷ t ∷ _) = ok (record { dim = n; clusters = m; trained = t == 1 })

abbrev strict_lib : FaissLib Inverted
strict_lib = record {
  hnsw = λ dim links. trained_index dim;
  ivf = λ dim nlist. record { dim = dim; clusters = nlist; trained = false };
  flat = trained_index;
  is_trained = λ i. i.trained;
  train = λ vs i. taken (have_dim i.dim vs && leb i.clusters (length vs)) i;
  add = λ vs i. taken (i.trained && have_dim i.dim vs) i;
  index_search = λ i v n. ok [];
  write_index = λ i. i.dim ∷ i.clusters ∷ (if i.trained then 1 else 0) ∷ [];
  read_index = read_inverted;
}

strict_lib-RoundTrips : RoundTrips strict_lib object_files
strict_lib-RoundTrips = record { index = read_back; sidecar = λ x. refl }
  where
    read_back : (i : Inverted) → strict_lib.read_index (strict_lib.write_index i) ≡ ok i
    read_back i = elim (Bool-cases i.trained) [ inl yes_ ↦ rw yes_ refl | inr no_ ↦ rw no_ refl ]

have_dim-HasDim : (dim : ℕ) (vs : List (List Float)) → HasDim dim vs → have_dim dim vs ≡ true
have_dim-HasDim dim [] h = refl
have_dim-HasDim dim (v ∷ vs) h =
    rw ((nat_eq.beq_iff (length v) dim).1 h.0, have_dim-HasDim dim vs h.1) refl

leb-true : (m n : ℕ) → m ≤ n → leb m n ≡ true
leb-true m n h = ground arith

strict_lib-IsReliable : IsReliable strict_lib (λ i. i.dim) (λ i. i.clusters)
strict_lib-IsReliable = record {
  hnsw = λ dim links. (refl, refl);
  flat = λ dim. (refl, refl);
  ivf = λ dim nlist. (refl, refl);
  train = λ vs i h enough. (
    record i { trained = true },
    rw (have_dim-HasDim i.dim vs h, leb-true i.clusters (length vs) enough) refl,
    refl,
    refl,
  );
  add = λ vs i trained h.
      (record i { trained = true }, rw (trained, have_dim-HasDim i.dim vs h) refl);
}

-- A store with an inverted file, after a build.
abbrev inverted_build : State strict_lib object_files
inverted_build =
    (build strict_lib object_files corpus (codes "m")
      (new_store strict_lib object_files 1 (codes "ivf"), no_files)).1

inverted_build-Reach : Reach strict_lib object_files inverted_build
inverted_build-Reach =
    next (first_start 1 (codes "ivf"))
      (build_step corpus (codes "m") (new_store strict_lib object_files 1 (codes "ivf"), no_files))

inverted_build-dim : inverted_build.0.dim ≡ 1
unfolding build index_of build_sync new_index built persist files_of text_beq new_store
inverted_build-dim = refl

corpus-HasEmbeddings : HasEmbeddings 1 corpus
corpus-HasEmbeddings = (refl, (refl, tt))

ensure_total_example :
    (st' : State strict_lib object_files) × (ensure strict_lib object_files
        (ok corpus)
        (codes "n")
        inverted_build
      ≡ (ok tt, st'))
    × IsReady strict_lib object_files strict_lib-RoundTrips (codes "n") st'.0
ensure_total_example =
    ensure_total strict_lib object_files strict_lib-RoundTrips strict_lib-IsReliable corpus
      (codes "n") inverted_build
      (subst (λ n. HasEmbeddings n corpus) (sym inverted_build-dim) corpus-HasEmbeddings)
      inverted_build-Reach
