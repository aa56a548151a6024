-- ===== src/Web/Session.antt =====
-- What the forwarding routes of the console do to the knowledge base.
use mathlib.Core.Path.{subst}
use mysql_redshift_agent.Prelude.{
  ℕ, ◌≡◌, ◌⊎◌, ◌↔◌, refl, sym, ap, inl, inr, Bool, true, false, not, Option, none, some, map, Elem,
  filter_by, ◌==◌, Bool-cases,
}
use mysql_redshift_agent.Text.{Text, Unicode}
use mysql_redshift_agent.Value.{Runtime}
use mysql_redshift_agent.Delivery.{Delivery, answered, answer_lost, not_sent}
use mysql_redshift_agent.Rules.{Directory}
use mysql_redshift_agent.Knowledge.Table.{Table, Backend}
use mysql_redshift_agent.Knowledge.Store.{Config, Faults, is_enabled, delete, delete_entry}
use mysql_redshift_agent.Knowledge.Admin.{delete_entry_lem}
use mysql_redshift_agent.Knowledge.Valid.{
  IsValid, save_example-IsValid, retrieve_similar-IsValid, delete_entry-IsValid,
}
use mysql_redshift_agent.Service.Translate.{
  Response, TranslateResp, ok, http, examples_for, translate, truthy, clean_request,
}
use mysql_redshift_agent.Service.Import.{ImportTestReq, ImportTestResp, Environment, import_test}
use mysql_redshift_agent.Service.Ends.{Ends}
use mysql_redshift_agent.Service.Imported.{
  Imported, translated_table, translation_of, import_test-Ends, import_test-Imported,
}
use mysql_redshift_agent.Service.Manage.{knowledge_delete}
use mysql_redshift_agent.Web.Forward.{
  Call, agent_error, answer_or_502, forward, api_knowledge_list, deletion, api_knowledge_delete,
  api_knowledge_import_test,
}

module _ {A S : Type 0} (e : Text) (endpoint : S → Option A × S) (s : S) where
  -- The state behind a call is the one before it or the one that the endpoint left.
  forward_state :
      (P : S → Type 0) (d : Delivery) → P s → P (endpoint s).1 → P (forward e d endpoint s).1
  unfolding forward
  forward_state P not_sent before after = before
  forward_state P answer_lost before after = after
  forward_state P answered before after = after

  reply_ok : (o : Option A) (a : A) → answer_or_502 e o ≡ ok a → o ≡ some a
  unfolding answer_or_502
  reply_ok none a h = absurd (cc)
  reply_ok (some x) a h = cc

  -- An answer is the endpoint's.
  forward_ok :
      (d : Delivery) (a : A)
      → (forward e d endpoint s).0 ≡ ok a
      → endpoint s ≡ (some a, (forward e d endpoint s).1)
  unfolding forward
  forward_ok not_sent a h = absurd (cc (reply_ok none a h))
  forward_ok answer_lost a h = absurd (cc (reply_ok none a h))
  forward_ok answered a h = ap (λ o. (o, (endpoint s).1)) (reply_ok (endpoint s).0 a h)

  reply_http :
      (o : Option A)
      → ((a : A) × (answer_or_502 e o ≡ ok a)) ⊎ (answer_or_502 e o ≡ http 502 (agent_error e))
  unfolding answer_or_502
  reply_http none = inr refl
  reply_http (some a) = inl (a, refl)

  -- Any other answer is the status 502 with the text of the exception.
  forward_http :
      (d : Delivery)
      → ((a : A) × ((forward e d endpoint s).0 ≡ ok a))
        ⊎ ((forward e d endpoint s).0 ≡ http 502 (agent_error e))
  unfolding forward
  forward_http not_sent = reply_http none
  forward_http answer_lost = reply_http none
  forward_http answered = reply_http (endpoint s).0

module _ (b : Backend) (u : Unicode) (c : Config b.Score) where
  -- The table without the rows of an id.
  abbrev pub without_id : ℕ → Table b.Vector → Table b.Vector
  without_id i t = record t { rows = filter_by (λ e. not (e.id == i)) t.rows }

  not_configured :
      (fails : Faults) (i : ℕ) (t : Table b.Vector)
      → is_enabled b c ≡ false
      → delete_entry b c fails i t ≡ some (false, t)
  unfolding delete_entry
  not_configured fails i t off = rw off refl

  database_down :
      (fails : Faults) (i : ℕ) (t : Table b.Vector)
      → is_enabled b c ≡ true
      → fails delete ≡ true
      → delete_entry b c fails i t ≡ none
  unfolding delete_entry
  database_down fails i t on down = rw (on, down) refl

  -- What a deletion at the agent returns, with the table that it leaves: false without a knowledge base,
  -- an exception where the database does not carry it out, and else whether the id was there.
  abbrev pub AgentDeletes : Faults → ℕ → Table b.Vector → Option Bool × Table b.Vector → Type 0
  AgentDeletes fails i t o =
      ((is_enabled b c ≡ false) × (o ≡ (some false, t)))
      ⊎ (((is_enabled b c ≡ true) × (fails delete ≡ true) × (o ≡ (none, t)))
          ⊎ ((is_enabled b c ≡ true)
              × (fails delete ≡ false)
              × ((done : Bool) × (o ≡ (some done, without_id i t))
                  × ((done ≡ true) ↔ Elem i (map (λ e. e.id) t.rows)))))

  deletion-AgentDeletes :
      (fails : Faults) (i : ℕ) (t : Table b.Vector)
      → AgentDeletes fails i t (deletion b u c t (knowledge_delete b u c fails i t))
  unfolding deletion knowledge_delete
  deletion-AgentDeletes fails i t = elim (Bool-cases (is_enabled b c)) [
    | inr off ↦ rw (not_configured fails i t off) (inl (off, refl))
    | inl on ↦ elim (Bool-cases (fails delete)) [
      | inl down ↦ rw (database_down fails i t on down) (inr (inl (on, down, refl)))
      | inr up ↦
          let (done, e, found) = delete_entry_lem b c fails i t on up in
          rw e (inr (inr (on, up, (done, refl, found))))
    ]
  ]

  -- What the console answers and leaves, by how the call went: the result of the agent, or the status 502
  -- where the call or the agent failed.
  abbrev pub Told :
      Text
      → Table b.Vector
      → Option Bool × Table b.Vector
      → Delivery
      → Response Bool × Table b.Vector
      → Type 0
  Told e t o not_sent x = x ≡ (http 502 (agent_error e), t)
  Told e t o answer_lost x = x ≡ (http 502 (agent_error e), o.1)
  Told e t o answered x =
      ((o.0 ≡ none) × (x ≡ (http 502 (agent_error e), o.1)))
      ⊎ ((done : Bool) × (o.0 ≡ some done) × (x ≡ (ok done, o.1)))

  answered-Told :
      (e : Text) (t : Table b.Vector) (o : Option Bool × Table b.Vector)
      → Told e t o answered (answer_or_502 e o.0, o.1)
  unfolding answer_or_502
  answered-Told e t (none, t') = inl (refl, refl)
  answered-Told e t (some done, t') = inr (done, refl, refl)

  -- A deletion through the console ends by how its call went and by what the agent did: not sent, it is the
  -- status 502 and the table as it was; with the answer lost, the status 502 and the table that the agent
  -- left; answered, the result of the agent with its table, or the status 502 if the agent raised. The
  -- agent returns false and changes nothing without a knowledge base, raises and changes nothing where the
  -- database fails, and else deletes the rows of the id and returns true exactly if there was one.
  pub api_knowledge_delete-Ends :
      (call : Call) (fails : Faults) (i : ℕ) (t : Table b.Vector)
      → (o : Option Bool × Table b.Vector) × AgentDeletes fails i t o
        × Told call.error t o call.delivery (api_knowledge_delete b u c call fails i t)
  unfolding api_knowledge_delete forward
  api_knowledge_delete-Ends call fails i t = (
    deletion b u c t (knowledge_delete b u c fails i t),
    deletion-AgentDeletes fails i t,
    told call.delivery,
  )
    where
      endpoint : Table b.Vector → Option Bool × Table b.Vector
      endpoint t = deletion b u c t (knowledge_delete b u c fails i t)

      told : (d : Delivery) → Told call.error t (endpoint t) d (forward call.error d endpoint t)
      told not_sent = refl
      told answer_lost = refl
      told answered = answered-Told call.error t (endpoint t)

  deletion-IsValid :
      (fails : Faults) (i : ℕ) (t : Table b.Vector)
      → IsValid b t
      → (o : Option (Bool × Table b.Vector)) → delete_entry b c fails i t ≡ o
      → IsValid b (deletion b u c t o).1
  unfolding deletion
  deletion-IsValid fails i t v none e = v
  deletion-IsValid fails i t v (some (done, t')) e = delete_entry-IsValid b c fails i t e v

  module _ (r : Runtime) (dir : Directory) where
    translated_table-IsValid :
        (env : Environment r) (req : ImportTestReq) (t : Table b.Vector)
        → IsValid b t
        → IsValid b (translated_table r b u dir c env req t)
    unfolding translate examples_for truthy
    translated_table-IsValid env req t v =
        retrieve_similar-IsValid b c env.fails_retrieval env.translated_at
          (clean_request req.mysql_sql) c.top_k c.threshold t v

    Ends-IsValid :
        (env : Environment r) (req : ImportTestReq) (tr : Response (TranslateResp b.Score))
        (t : Table b.Vector)
        → IsValid b t
        → (o : Option (ImportTestResp r) × Table b.Vector) → Ends r b u dir c env req tr t o
        → IsValid b o.1
    Ends-IsValid env req tr t v (none, after) h = subst (IsValid b) (sym h.1) v
    Ends-IsValid env req tr t v (some resp, after) (inl h) = subst (IsValid b) (sym h.1) v
    Ends-IsValid env req tr t v (some resp, after) (inr a) =
        subst (IsValid b) (sym a.after_save)
          (save_example-IsValid b u c env.fails_save env.saved_at a.draft t v)

    -- One request of the console that is forwarded: how the call goes and what fails is free.
    pub data Request (t : Table b.Vector) : Table b.Vector → Type 0 where
      listing :
          (call : Call) (fails : Faults) (limit offset : ℕ) (search : Text)
          → Request t (api_knowledge_list b u c call fails limit offset search t).1
      deleting :
          (call : Call) (fails : Faults) (i : ℕ)
          → Request t (api_knowledge_delete b u c call fails i t).1
      importing :
          (call : Call) (env : Environment r) (req : ImportTestReq)
          → Request t (api_knowledge_import_test b u c r dir call env req t).1

    -- The tables that a session at the console can reach.
    pub data Session (t : Table b.Vector) : Table b.Vector → Type 0 where
      begun : Session t t
      requested : {t' t'' : Table b.Vector} → Session t t' → Request t' t'' → Session t t''

    Request-IsValid : {t t' : Table b.Vector} → Request t t' → IsValid b t → IsValid b t'
    unfolding api_knowledge_list api_knowledge_delete api_knowledge_import_test knowledge_delete
    Request-IsValid {t} (listing call fails limit offset search) v =
        forward_state call.error _ t (IsValid b) call.delivery v v
    Request-IsValid {t} (deleting call fails i) v =
        forward_state call.error _ t (IsValid b) call.delivery v
          (deletion-IsValid fails i t v _ refl)
    Request-IsValid {t} (importing call env req) v =
        forward_state call.error _ t (IsValid b) call.delivery v (
          Ends-IsValid env req _ _ (translated_table-IsValid env req t v) _
            (import_test-Ends r b u dir c env req t))

    -- Any session of listings, deletions and imports at the console, whichever calls are answered and
    -- whatever fails at the agent, keeps the ids and the md5 keys of the table unique and the ids below
    -- the sequence.
    pub Session-IsValid : {t t' : Table b.Vector} → Session t t' → IsValid b t → IsValid b t'
    Session-IsValid begun v = v
    Session-IsValid (requested s q) v = Request-IsValid q (Session-IsValid s v)

    -- An import through the console that is answered with an id has left a row of that id under the
    -- statement, with the translation, the source import, and the mode of the request or override.
    pub api_knowledge_import_test-Imported :
        (call : Call) (env : Environment r) (req : ImportTestReq) (t : Table b.Vector)
        (resp : ImportTestResp r) (i : ℕ)
        → (api_knowledge_import_test b u c r dir call env req t).0 ≡ ok resp
        → resp.saved_id ≡ some i
        → Imported r b u dir c env req
            (translation_of r b u dir c env req t).0
            resp
            i
            (api_knowledge_import_test b u c r dir call env req t).1
    unfolding api_knowledge_import_test
    api_knowledge_import_test-Imported call env req t resp i h k =
        import_test-Imported r b u dir c env req t _ resp i
          (forward_ok call.error (import_test r b u dir c env req) t call.delivery resp h) k
