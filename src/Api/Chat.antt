-- ===== src/Api/Chat.antt =====
-- src/app/api/chat.py: the events of a run as Server-Sent Events. `json.dumps` of an event's data is
-- a parameter, and so is what entering and leaving the MCP client does.
use mathlib.Core.List.{append-nil}
use grounded_ops_agent.Agent.Events.{
  AgentEvent, status, tool_call, tool_result, token, sources, trace, done, error,
}
use grounded_ops_agent.Agent.Orchestrator.{events, new_session}
use grounded_ops_agent.Agent.Session.{Environment, Session}
use grounded_ops_agent.Agent.Session.Triples.{Post}
use grounded_ops_agent.Agent.Watched.LastEvent.{IsOpen, IsDone, events-IsDone}
use grounded_ops_agent.Api.Requests.{ChatRequest, filters_of, check_length, exceeds}
use grounded_ops_agent.Core.Errors.{◌>>=◌, Error, Result, ok, raise}
use grounded_ops_agent.Core.Settings.{Settings}
use grounded_ops_agent.Llm.Factory.{ProviderChoice, get_llm_provider}
use grounded_ops_agent.Prelude.{
  ◌≡◌, refl, ap, ◌∙◌, ◌⊎◌, inl, inr, Option, List, [], ◌∷◌, ◌++◌, map, Text,
}
use grounded_ops_agent.Retrieval.Types.{SearchFilters}
use grounded_ops_agent.Text.Chars.{codes}

pub record ServerEvent : Type 0 where
  pub event : Text
  pub payload : Text

pub record ChatServer (W : Type 0) : Type 0 where
  pub settings : Settings
  -- `MCPClient.__aenter__` and `__aexit__`
  pub enter : W → Result (Unit {0}) × W
  pub leave : W → Result (Unit {0}) × W
  -- the collaborators of a run with a provider
  pub environment : ProviderChoice → Environment W
  pub dumps_data : AgentEvent → Text
  pub dumps_error : Error → Text

-- `event.type`
unfoldable pub event_type : AgentEvent → Text
event_type (status phase step) = codes "status"
event_type (tool_call name arguments) = codes "tool_call"
event_type (tool_result name text is_error latency) = codes "tool_result"
event_type (token t) = codes "token"
event_type (sources ss) = codes "sources"
event_type (trace ts) = codes "trace"
event_type (done d) = codes "done"
event_type (error m) = codes "error"

module _ {W : Type 0} (server : ChatServer W) where
  unfoldable pub server_event : AgentEvent → ServerEvent
  unfolding event_type
  server_event e = record { event = event_type e; payload = server.dumps_data e }

  unfoldable pub error_event : Error → ServerEvent
  error_event e = record { event = codes "error"; payload = server.dumps_error e }

  -- The end of the stream: nothing more, or the exception that got out of the `async with`. An
  -- exception of `__aexit__` takes the place of the one of the body.
  abbrev closing : (body left : Result (Unit {0})) → List ServerEvent
  closing body (raise e) = error_event e ∷ []
  closing (raise e) (ok u) = error_event e ∷ []
  closing (ok v) (ok u) = []

  -- The body of the `async with`: how it ended, the events, and the world.
  unfoldable pub chat_body :
      ChatRequest
      → Option SearchFilters
      → Result ProviderChoice
      → W
      → Result (Unit {0}) × (List AgentEvent × W)
  chat_body req filters (raise e) w = (raise e, ([], w))
  chat_body req filters (ok provider) w =
      let env = server.environment provider in
      let (ended, s) = events env req.question req.top_k filters (new_session env w) in
      (ended, (s.emitted, s.world))

  abbrev entered : ChatRequest → Option SearchFilters → Result (Unit {0}) → W → List ServerEvent
  entered req filters (raise e) w = error_event e ∷ []
  entered req filters (ok u) w =
      let (ended, (es, w')) = chat_body req filters (get_llm_provider server.settings) w in
      map server_event es ++ closing ended (server.leave w').0

  unfoldable pub event_stream : ChatRequest → Option SearchFilters → W → List ServerEvent
  unfolding chat_body server_event error_event
  event_stream req filters w = let (r, w') = server.enter w in entered req filters r w'

  -- The handler of `POST /chat`.
  unfoldable pub chat : ChatRequest → W → Result (List ServerEvent)
  unfolding event_stream check_length filters_of
  chat req w =
      let limit = server.settings.max_query_chars in
      check_length limit (exceeds (codes "question") limit) req.question >>= λ u.
      ok (event_stream req (filters_of req.source_types) w)

  -- A stream that ends by a `done` or an `error` event.
  abbrev pub Ends : List ServerEvent → Type 0
  Ends es =
      (before : List ServerEvent) × (last : ServerEvent) × (es ≡ before ++ last ∷ [])
      × ((last.event ≡ codes "done") ⊎ (last.event ≡ codes "error"))

  Ends-error : (before : List ServerEvent) (e : Error) → Ends (before ++ error_event e ∷ [])
  unfolding error_event
  Ends-error before e = (before, error_event e, refl, inr refl)

  events_append :
      (es fs : List AgentEvent)
      → map server_event (es ++ fs) ≡ map server_event es ++ map server_event fs
  events_append [] fs = refl
  events_append (e ∷ es) fs = ap (λ r. server_event e ∷ r) (events_append es fs)

  Ends-done : (es : List AgentEvent) → IsDone es → Ends (map server_event es)
  unfolding server_event event_type
  Ends-done es d = (
    map server_event d.before,
    server_event (done d.last),
    ap (map server_event) d.ends ∙ events_append d.before (done d.last ∷ []),
    inl refl,
  )

  Ends-closing :
      (ended left : Result (Unit {0})) (es : List AgentEvent)
      → ((u : Unit {0}) → ended ≡ ok u → IsDone es)
      → Ends (map server_event es ++ closing ended left)
  Ends-closing ended (raise e) es h = Ends-error (map server_event es) e
  Ends-closing (raise e) (ok u) es h = Ends-error (map server_event es) e
  Ends-closing (ok v) (ok u) es h = rw (append-nil (map server_event es)) (Ends-done es (h v refl))

  body-IsDone :
      (req : ChatRequest) (filters : Option SearchFilters) (p : Result ProviderChoice) (w : W)
      (u : Unit {0})
      → (chat_body req filters p w).0 ≡ ok u
      → IsDone (chat_body req filters p w).1.0
  unfolding chat_body
  body-IsDone req filters (raise e) w u h = cc h
  body-IsDone req filters (ok provider) w u h =
      let env = server.environment provider in
      returned (events env req.question req.top_k filters (new_session env w))
        (events-IsDone env req.question req.top_k filters w) h
    where
      returned :
          (x : Result (Unit {0}) × Session W)
          → Post (λ _ s. IsDone s.emitted) (λ s. IsOpen s.emitted) x
          → x.0 ≡ ok u
          → IsDone x.1.emitted
      returned (ok v, s) p e = p
      returned (raise e, s) p k = cc k

  -- Every stream that the chat endpoint opens ends, by a `done` or an `error` event, whatever the
  -- client, the provider and the collaborators of the run do.
  pub event_stream-Ends :
      (req : ChatRequest) (filters : Option SearchFilters) (w : W)
      → Ends (event_stream req filters w)
  unfolding event_stream
  event_stream-Ends req filters w = entered-Ends (server.enter w).0 (server.enter w).1
    where
      entered-Ends : (r : Result (Unit {0})) (w' : W) → Ends (entered req filters r w')
      entered-Ends (raise e) w' = Ends-error [] e
      entered-Ends (ok u) w' =
          let p = get_llm_provider server.settings in
          Ends-closing (chat_body req filters p w').0 _ (chat_body req filters p w').1.0
            (body-IsDone req filters p w')
