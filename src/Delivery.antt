-- ===== src/Delivery.antt =====
-- How a request to the agent goes, for its clients scripts/seed_knowledge.py and webui/app.py: it is
-- answered, it reaches the agent and the answer is lost, or it does not reach the agent.
pub data Delivery : Type 0 where
  answered answer_lost not_sent : Delivery
