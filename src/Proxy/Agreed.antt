-- ===== src/Proxy/Agreed.antt =====
-- What the proxy and the agent do together: the translations that the proxy runs, and the knowledge base.
use mathlib.Core.Path.{subst}
use mysql_redshift_agent.Prelude.{
  ℕ, ◌≡◌, ◌≢◌, ◌⊎◌, refl, sym, ap, ◌∙◌, inl, inr, true, false, some, List, [], ◌∷◌, All, leb, ltb,
  arith, if_both, Bool-cases, Option, none, length, take, ◌<◌,
}
use mysql_redshift_agent.Text.{Text, Unicode}
use mysql_redshift_agent.Text.Strip.{IsStripped}
use mysql_redshift_agent.Delivery.{Delivery, answered, answer_lost, not_sent}
use mysql_redshift_agent.Rules.{Directory}
use mysql_redshift_agent.Extract.{is_untranslatable}
use mysql_redshift_agent.Knowledge.Table.{Table, Backend}
use mysql_redshift_agent.Knowledge.Store.{Config, Hit}
use mysql_redshift_agent.Knowledge.Valid.{IsValid, save_example-IsValid, retrieve_similar-IsValid}
use mysql_redshift_agent.Service.Translate
use mysql_redshift_agent.Service.Translate.{
  TranslateResp, Response, Reply, ok, http, user_message, examples_for, truthy, clean_request,
}
use mysql_redshift_agent.Service.Translated.{
  Fails, model_raised, not_translatable, translate-ok, translate-http,
}
use mysql_redshift_agent.Service.Manage.{save_example_endpoint}
use mysql_redshift_agent.Proxy.Values.{Types, Build}
use mysql_redshift_agent.Proxy.Client.{
  TranslateRequest, TranslateResponse, SaveReq, Executed, Outside, Translated, translated, refused,
  http_call_failed, agent_returned, decode_failed, read_answer, read_body, translate,
}
use mysql_redshift_agent.Proxy.Agent.{
  to_agent, draft_of, Json, Course, posted_of, delivered, post_to_agent, saved_by, save_at_agent,
  read_all, with_agent,
}
use mysql_redshift_agent.Proxy.GoText.{Unicode as GoUnicode}
use mysql_redshift_agent.Proxy.Router.{Parsed}
use mysql_redshift_agent.Proxy.Cache.{Lru}
use mysql_redshift_agent.Proxy.Server.{Setup, State}
use mysql_redshift_agent.Proxy.Serves.{Serves}
use mysql_redshift_agent.Proxy.Cached.{Origin, origin, IsSample, IsKept}
use mysql_redshift_agent.Proxy.Connections.{Place, Reach}
use mysql_redshift_agent.Proxy.Concurrent.{IsHeld, Reach-IsKept}
use mysql_redshift_agent.Proxy.Worlds.{Keeps, Serves_keeps}

module _ (b : Backend) (u : Unicode) (dir : Directory) (c : Config b.Score) (ask : Text → Reply)
    (j : Json b.Score) (t : Types) (W : Type 0) (redshift mysql : Text → W → Executed t × W)
    (course : W → Course × W) (build : Build t) where
  abbrev pub System : Outside t
  System = with_agent b u dir c ask j t W redshift mysql course build

  -- What the model is asked about the request, in the world
  abbrev pub Message : TranslateRequest → Table b.Vector → Course → Text
  Message req table k =
      user_message b u dir (to_agent req) (examples_for b c k.fails k.now (to_agent req) table).0

  -- What a translation through the agent can give the proxy: SQL that is stripped and no refusal, the
  -- error of a call that was not answered, the status and the detail of a failure at the agent, as much
  -- as was read of it, or the error of a decoder that got a part of the answer.
  abbrev pub IsAgreed : TranslateRequest → Table b.Vector → Course → Translated → Type 0
  IsAgreed req table k (translated resp) =
      IsStripped resp.redshift_sql × (is_untranslatable u resp.redshift_sql ≡ false)
  IsAgreed req table k (refused e) =
      ((e ≡ http_call_failed k.error) × (k.delivery ≢ answered))
      ⊎ (((status : ℕ) × (detail : Text) × (e
              ≡ agent_returned status (read_all k.cut_at (j.detail_body detail)))
            × Fails u (ask (Message req table k)) status detail)
          ⊎ ((resp : TranslateResp b.Score) × (n : ℕ) × (why : Text) × (k.cut_at ≡ some n)
              × (n < length (j.body resp))
              × (e ≡ decode_failed why (take n (j.body resp)))
              × ((Translate.translate b u dir c ask k.fails k.now k.latency_ms (to_agent req)
                    table).0
                  ≡ ok resp)))

  module _ (req : TranslateRequest) (table : Table b.Vector) (k : Course) where
    abbrev Answered : Response (TranslateResp b.Score) × Table b.Vector
    Answered = Translate.translate b u dir c ask k.fails k.now k.latency_ms (to_agent req) table

    refused_status :
        (status : ℕ) (detail : Text)
        → Fails u (ask (Message req table k)) status detail
        → leb 400 status ≡ true
    refused_status status detail (model_raised e p q r) = rw q refl
    refused_status status detail (not_translatable text p q r s) = rw q refl

    whole-IsAgreed :
        (resp : TranslateResp b.Score)
        → Answered.0 ≡ ok resp
        → IsAgreed req table k (read_body (j.body resp) (j.decode (j.body resp)))
    whole-IsAgreed resp e =
        let (stripped, translatable) =
          translate-ok b u dir c ask k.fails k.now k.latency_ms (to_agent req) table resp e in
        let same = sym (j.view_sql resp) in
        let agreed : IsAgreed req table k (translated (j.view resp)) =
          (subst IsStripped same stripped, ap (is_untranslatable u) (sym same) ∙ translatable) in
        subst (λ d. IsAgreed req table k (read_body (j.body resp) d)) (sym (j.decode_body resp))
          (unfold read_body in agreed)

    body-IsAgreed :
        (resp : TranslateResp b.Score)
        → Answered.0 ≡ ok resp
        → (cut : Option ℕ) → k.cut_at ≡ cut
        → IsAgreed req table k
            (read_body (read_all cut (j.body resp)) (j.decode (read_all cut (j.body resp))))
    unfolding read_all
    body-IsAgreed resp e none q = whole-IsAgreed resp e
    body-IsAgreed resp e (some n) q = elim (Bool-cases (ltb n (length (j.body resp)))) [
      | inr p ↦ rw p (whole-IsAgreed resp e)
      | inl p ↦
          let short : n < length (j.body resp) = ground arith in
          let (why, d) = j.decode_cut resp n short in
          let agreed : IsAgreed req table k (refused (decode_failed why (take n (j.body resp)))) =
            inr (inr (resp, n, why, q, short, refl, e)) in
          rw p (
            subst (λ x. IsAgreed req table k (read_body (take n (j.body resp)) x)) (sym d)
              (unfold read_body in agreed))
    ]

    posted-IsAgreed :
        (r : Response (TranslateResp b.Score))
        → Answered.0 ≡ r
        → IsAgreed req table k (read_answer t System (posted_of b u dir c ask j k.cut_at r))
    unfolding posted_of
    posted-IsAgreed (ok resp) e = unfold read_answer in body-IsAgreed resp e k.cut_at refl
    posted-IsAgreed (http status detail) e =
        let f =
          translate-http b u dir c ask k.fails k.now k.latency_ms (to_agent req) table status detail
            e in
        unfold read_answer in
        rw (refused_status status detail f) (inr (inl (status, detail, refl, f)))

    delivered-IsAgreed :
        (d : Delivery)
        → k.delivery ≡ d
        → IsAgreed req table k
            (read_answer t System (delivered b u dir c ask j d k.cut_at k.error Answered table).0)
    unfolding delivered
    delivered-IsAgreed not_sent e = unfold read_answer in inl (refl, λ h. absurd (cc))
    delivered-IsAgreed answer_lost e = unfold read_answer in inl (refl, λ h. absurd (cc))
    delivered-IsAgreed answered e = posted-IsAgreed Answered.0 refl

  -- A translation that the proxy gets from the agent is SQL with no white space around it, and is no
  -- UNTRANSLATABLE marker; where it gets an error, the call was not answered, or the error has the status
  -- and the detail of the agent, as far as the body was read, whose model raised or refused the statement,
  -- or the body of a translation was cut short and the error is the one of the decoder with the part that
  -- was read.
  pub translate-IsAgreed :
      (req : TranslateRequest) (w : System.World)
      → IsAgreed req w.0 (course w.1).0 (translate t System req w).0
  translate-IsAgreed req w =
      unfold translate post_to_agent in delivered-IsAgreed req w.0 (course w.1).0 _ refl

  -- A delivered call keeps a valid table.
  delivered-IsValid :
      (d : Delivery) (cut : Option ℕ) (e : Text)
      (after : Response (TranslateResp b.Score) × Table b.Vector) (table : Table b.Vector)
      → IsValid b table
      → IsValid b after.1
      → IsValid b (delivered b u dir c ask j d cut e after table).1
  unfolding delivered
  delivered-IsValid not_sent cut e after table v v' = v
  delivered-IsValid answer_lost cut e after table v v' = v'
  delivered-IsValid answered cut e after table v v' = v'

  saved-IsValid :
      (d : Delivery) (after table : Table b.Vector)
      → IsValid b table
      → IsValid b after
      → IsValid b (saved_by b u dir c ask j d after table)
  unfolding saved_by
  saved-IsValid not_sent after table v v' = v
  saved-IsValid answer_lost after table v v' = v'
  saved-IsValid answered after table v v' = v'

  translate-IsValid :
      (k : Course) (req : TranslateRequest) (table : Table b.Vector)
      → IsValid b table
      → IsValid b
          (Translate.translate b u dir c ask k.fails k.now k.latency_ms (to_agent req) table).1
  translate-IsValid k req table v =
      unfold Translate.translate examples_for in
      if_both {A = List (Hit b.Score) × Table b.Vector} (λ p. IsValid b p.1)
        (truthy (to_agent req).prev_error) _ _ (λ e. v)
        (λ e. retrieve_similar-IsValid b c k.fails k.now _ c.top_k c.threshold table v)

  post-IsValid :
      (k : Course) (req : TranslateRequest) (table : Table b.Vector)
      → IsValid b table
      → IsValid b (post_to_agent b u dir c ask j k req table).1
  unfolding post_to_agent
  post-IsValid k req table v = delivered-IsValid _ _ _ _ table v (translate-IsValid k req table v)

  save-IsValid :
      (k : Course) (req : SaveReq) (table : Table b.Vector)
      → IsValid b table
      → IsValid b (save_at_agent b u dir c ask j k req table)
  unfolding save_at_agent save_example_endpoint
  save-IsValid k req table v =
      saved-IsValid _ _ table v (save_example-IsValid b u c k.fails k.now (draft_of req) table v)

  Table-Keeps : Keeps t System (λ w. IsValid b w.0)
  Table-Keeps = record {
    redshift = λ sql w v. v;
    mysql = λ sql w v. v;
    post = λ req w v. post-IsValid (course w.1).0 req w.0 v;
    save = λ req w v. save-IsValid (course w.1).0 req w.0 v;
  }

  -- Whatever queries the proxy is asked and whatever samples it posts, and whichever of its calls of the
  -- agent are answered, the ids and the md5 keys of the agent's knowledge base stay unique and the ids stay
  -- below the sequence.
  pub Serves-IsValid :
      (l : Lru) (go : GoUnicode) (digest : Text → Text) (parse : Text → Parsed) (setup : Setup)
      {s s' : State t System l}
      → Serves t System l go digest parse setup s s'
      → IsValid b s.world.0
      → IsValid b s'.world.0
  Serves-IsValid l go digest parse setup =
      Serves_keeps t System (λ w. IsValid b w.0) Table-Keeps l go digest parse setup

  -- SQL with no white space around it that is no UNTRANSLATABLE marker
  abbrev pub IsClean : Text → Type 0
  IsClean sql = IsStripped sql × (is_untranslatable u sql ≡ false)

  module _ (l : Lru) (go : GoUnicode) (digest : Text → Text) where
    agreed-IsClean :
        (req : TranslateRequest) (w : System.World) (a : Translated) (resp : TranslateResponse)
        → IsAgreed req w.0 (course w.1).0 a
        → a ≡ translated resp
        → IsClean resp.redshift_sql
    agreed-IsClean req w (refused e) resp h q = absurd (cc)
    agreed-IsClean req w (translated r) resp h q =
        let e : r ≡ resp = cc in subst (λ x. IsClean x.redshift_sql) e h

    Origin-IsClean : {k v : Text} → Origin t System l go digest k v → IsClean v
    Origin-IsClean (origin req resp w w' q p e) =
        subst IsClean e (agreed-IsClean req w _ resp (translate-IsAgreed req w) (ap (λ x. x.0) p))

    sample-IsClean :
        (queue : List SaveReq)
        → All (IsSample t System l go digest) queue
        → All (λ req. IsClean req.redshift_sql) queue
    sample-IsClean [] h = tt
    sample-IsClean (req ∷ queue) h = (Origin-IsClean h.0.from, sample-IsClean queue h.1)

    -- However the queries of several connections are interleaved, in front of the agent the cache and the
    -- queue of samples hold only SQL with no white space around it that is no UNTRANSLATABLE marker; the
    -- first state is kept and the queries that have begun hold answers of the agent.
    pub Reach-IsClean :
        (parse : Text → Parsed) (setup : Setup) {s s' : State t System l} {ps ps' : List (Place t)}
        → Reach t System l go digest parse setup s ps s' ps'
        → IsKept t System l go digest s
        → All (IsHeld t System l go digest parse setup) ps
        → ((k v : Text) → (l.get k s'.cache.inner).0 ≡ some v → IsClean v)
          × All (λ req. IsClean req.redshift_sql) s'.queue
    Reach-IsClean parse setup r h g =
        let (k, held) = Reach-IsKept t System l go digest parse setup r h g in
        (λ key v e. Origin-IsClean (k.origins key v e), sample-IsClean _ k.samples)
