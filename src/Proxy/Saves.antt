-- ===== src/Proxy/Saves.antt =====
-- The queue of samples of proxy/internal/knowledge/client.go, and the worker that posts them to the agent.
use mysql_redshift_agent.Prelude.{ℕ, List, [], ◌∷◌, ◌++◌, length, ltb, if◌then◌else◌}
use mysql_redshift_agent.Proxy.Values.{Types}
use mysql_redshift_agent.Proxy.Client.{SaveReq, Outside}

-- The size of the channel
abbrev pub channel_size : ℕ
channel_size = 256

-- `SaveAsync`: a full channel drops the sample.
unfoldable pub save_async : SaveReq → List SaveReq → List SaveReq
save_async req queue = if ltb (length queue) channel_size then queue ++ req ∷ [] else queue

-- One round of `worker`
unfoldable pub worker :
    (t : Types) (o : Outside t) → List SaveReq → o.World → List SaveReq × o.World
worker t o [] w = ([], w)
worker t o (req ∷ queue) w = (queue, o.save req w)
