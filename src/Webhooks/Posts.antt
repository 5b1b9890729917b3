-- ===== src/Webhooks/Posts.antt =====
-- What one post of a delivery comes to.
use headwater.Prelude.{ℕ, Text}

-- The status of the last response, a refusal of a target with its public message, or another
-- exception, described.
pub data Posted : Type 0 where
  status : ℕ → Posted
  rejected failed : Text → Posted
