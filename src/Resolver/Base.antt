-- ===== src/Resolver/Base.antt =====
-- sources/resolver/resolver.cpp: what all resolvers share.
use luminousminer.Prelude.{ℕ, Bool, not, ◌&&◌, ◌==◌, if◌then◌else◌}
use luminousminer.Prelude.Text.{Text, text_eq}

pub record Resolver : Type 0 where
  pub current_index_stream : ℕ
  pub job_id : Text
  pub blocks : ℕ
  pub threads : ℕ

unfoldable pub swap_index_stream : Resolver → Resolver
swap_index_stream r = record r {
  current_index_stream = if r.current_index_stream == 0 then 1 else 0;
}

unfoldable pub set_blocks : ℕ → Resolver → Resolver
set_blocks blocks r = record r { blocks = blocks }

unfoldable pub set_threads : ℕ → Resolver → Resolver
set_threads threads r = record r { threads = threads }

unfoldable pub update_job_id : Text → Resolver → Resolver
update_job_id job_id r = record r { job_id = job_id }

-- `stale` is the setting `config.mining.stale`: stale shares are sent all the same.
unfoldable pub is_stale : Bool → Text → Resolver → Bool
is_stale stale job_id r = not stale && not (text_eq r.job_id job_id)
