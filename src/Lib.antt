-- ===== src/Lib.antt =====
-- The Python backend of the grounded operations agent: a question is answered by a language model
-- over retrieved records, with citations that are checked, and with read-only analytics tools.
--
-- Parts and files. A run of src/app/agent/orchestrator.py retrieves records, numbers them in the
-- citation registry, lets the model call tools for a bounded number of rounds, strips citations of
-- unknown records from the final text and reports the sources.
-- - Prelude, Text, Core: lists, dicts as association lists in insertion order, texts as lists of code
--   points, floats as opaque bit patterns; src/app/core/errors.py (Core/Errors, whose `Result` is a
--   value or a raised exception), settings.py and pricing.py.
-- - Agent/Registry: `CitationRegistry` of src/app/agent/citation_registry.py, one function for each
--   method, with its invariant (Invariant), the stability of indices (Stability) and lookups that
--   never miss (Entries).
-- - Agent/Citations: src/app/agent/citations.py; the two regular expressions by clauses.
-- - Agent/Generation, Agent/Grounded: src/app/agent/generation.py. Agent/Guardrails, Agent/Prompts:
--   guardrails.py and prompts.py.
-- - Agent/Session, ToolRun, Orchestrator, Consumer, Extract, Events: orchestrator.py. A run passes a
--   `Session` on, with the locals of `events` and the events yielded so far; an exception keeps what
--   was written before it. The collaborators are the record `Environment` over a state of the world
--   outside; each may answer or raise. Session/Triples has the rules for pre- and postconditions,
--   ToolRun/Rules and Orchestrator/Rules carry an invariant through a tool call and through the loop.
--   Consumer/Recorded ties a run to what the world records: the model's last text, and the chunks that
--   retrievals and tool calls gave; Consumer/Rounds carries these records through `events`.
-- - Agent/Watched: the rules of Orchestrator/Rules for invariants of the world and of the events alone.
--   Agent/Faithfulness: src/app/agent/faithfulness.py.
-- - Security/Whitelist, Analytics: src/app/security/whitelist.py, with the schema that the model is
--   given (Schema), and src/app/mcp_server/analytics.py: the SQL texts and parameters, and the rows
--   as JSON (Analytics/Rows).
-- - Ingestion: the corpus loaders of src/app/ingestion/loaders.py, chunker.py over a tokenizer, and
--   indexer.py over the table of store.py; Indexer/Rows has what its writes keep true of every row.
-- - Retrieval: src/app/retrieval/types.py, rrf.py, reranker.py, benchmark.py, the queries of
--   pgvector_store.py over the rows of the table, and faiss_store.py. Retrieval/Faiss is the search;
--   Faiss/Build has building, persisting, loading and `ensure` as code over the store and its two
--   files, and Faiss/Ready the states that sequences of them and of restarts reach. Retrieval/Service
--   is service.py over any stores (`Backends`), and Service/Stores puts the two stores behind it.
-- - Llm: src/app/llm/types.py, echo_provider.py with its regular expression by clauses, embeddings.py,
--   the messages of anthropic_provider.py and openai_provider.py, factory.py
--   (Factory/Consistent relates it to the settings), and src/app/tools/adapter.py.
-- - Mcp: the tools of src/app/mcp_server/server.py and src/app/mcp_client/client.py.
-- - Api: the handlers of src/app/api/chat.py, search.py and ingest.py, and the statuses of
--   src/app/main.py.
-- - Eval: src/app/eval/metrics.py, gold.py and harness.py.
--
-- How they interact: the chat endpoint enters the MCP client and streams the events of a run; a run
-- retrieves over the service and calls tools through the client; the FAISS store is built from the
-- rows that the indexer wrote, and the service refuses rows of another embedding model.
--
-- Bounds and fuel. Python's integers are unbounded; where one may be negative it is a ℤ. The loop of
-- `events` recurs on the rounds left, the retries of a tool call on the retries left. The pieces of a
-- text, the chunks and the batches recur on fuel, the length of the text or the number of the tokens
-- or texts, since each round consumes at least one.
--
-- Not modelled: the health endpoint and the middleware, logging, the sessions, models and migrations of
-- the database, the seed data, the text of the reports, the clients of the model providers, locks and
-- the waiting between retries. Parameters: float arithmetic, the tokenizer, the FAISS library, the
-- embedding models, the MCP SDK, `json.loads`, date parsing, the upper case of a text, and the order
-- and the text search of the database. The limit on the number of digits that `int` reads is left out.
-- So are the texts on which the tokenizer raises (those with a special token), exceptions that are not
-- an `Exception` (a cancelled request), calls that never return, and event data that `json.dumps` does
-- not take.
pub mod Prelude
pub mod Text
pub mod Core
pub mod Retrieval
pub mod Llm
pub mod Agent
pub mod Security
pub mod Ingestion
pub mod Mcp
pub mod Api
pub mod Eval
pub mod Analytics
