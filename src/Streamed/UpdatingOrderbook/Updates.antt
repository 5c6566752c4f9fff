-- ===== src/Streamed/UpdatingOrderbook/Updates.antt =====
-- services-core/src/orderbook/streamed/updating_orderbook.rs: what an update does that goes
-- through, and what it leaves when a page of events fails.
use dex_services.Prelude.{
  ℕ, ◌-◌, ◌≤◌, ◌≡◌, refl, ◌∙◌, ap, Bool, true, false, Option, none, some, List, [], ◌∷◌, ◌++◌, map,
  le→leb, All,
}
use dex_services.History.Registry.{EventRegistry, delete_events_starting_at_block}
use dex_services.History.Registry.Reorg.{
  Log, handle_log, handle_logs, resync, delete-handle_logs, delete-delete,
}
use dex_services.Streamed.UpdatingOrderbook.{
  block_confirmation_count, RawEvent, Context, Node, handle_event, handle_events, block_hashes,
  prepare_timestamp_cache, handle_chunks, replace_events, update_to, update,
}

-- The event as the node reports it.
abbrev raw : Log → RawEvent
raw l = record {
  payload = l.event;
  meta = some (record {
    block_number = l.block_number;
    log_index = l.log_index;
    block_hash = l.block_hash;
  });
}

abbrev pub logs_of : List (List Log) → List Log
logs_of [] = []
logs_of (c ∷ cs) = c ++ logs_of cs

-- Chunks that come through, in front of others.
abbrev pub chunks_of :
    List (List Log) → List (Option (List RawEvent)) → List (Option (List RawEvent))
chunks_of [] rest = rest
chunks_of (c ∷ cs) rest = some (map raw c) ∷ chunks_of cs rest

-- The block that counts as handled after some chunks.
abbrev pub handled_after : List (List Log) → ℕ → ℕ → ℕ
handled_after [] to_block old = old
handled_after (c ∷ cs) to_block old = to_block

handled_after_self : (cs : List (List Log)) (n : ℕ) → handled_after cs n n ≡ n
handled_after_self [] n = refl
handled_after_self (c ∷ cs) n = refl

handle_logs-append :
    (m : EventRegistry) (ls ls' : List Log)
    → handle_logs m (ls ++ ls') ≡ handle_logs (handle_logs m ls) ls'
handle_logs-append m [] ls' = refl
handle_logs-append m (l ∷ ls) ls' = handle_logs-append (handle_log m l) ls ls'

block_hashes-raw : (ls : List Log) → (hs : List ℕ) × (block_hashes (map raw ls) ≡ some hs)
unfolding block_hashes
block_hashes-raw [] = ([], refl)
block_hashes-raw (l ∷ ls) = let (hs, e) = block_hashes-raw ls in (l.block_hash ∷ hs, rw e)

module _ (node : Node) (cached : (hs : List ℕ) → node.prepare_cache hs ≡ true) where
  -- The node knows the timestamp of the block of each event.
  abbrev pub AllTimed : List Log → Type 0
  AllTimed = All (λ l. node.block_timestamp l.block_hash ≡ some l.block_timestamp)

  handle_events-logs :
      (ls : List Log) (context : Context)
      → AllTimed ls
      → handle_events node context (map raw ls)
        ≡ (record context { orderbook = handle_logs context.orderbook ls }, true)
  unfolding handle_events handle_event
  handle_events-logs [] context t = refl
  handle_events-logs (l ∷ ls) context t = rw (t.0) (handle_events-logs ls _ t.1)

  prepare-logs : (ls : List Log) → prepare_timestamp_cache node (map raw ls) ≡ true
  unfolding prepare_timestamp_cache
  prepare-logs ls = let (hs, e) = block_hashes-raw ls in rw (e, prepare_timestamp_cache) (cached hs)

  handle_chunks-logs :
      (to_block : ℕ) (cs : List (List Log)) (rest : List (Option (List RawEvent)))
      (context : Context)
      → All AllTimed cs
      → handle_chunks node to_block context (chunks_of cs rest)
        ≡ handle_chunks node to_block
            (record {
              orderbook = handle_logs context.orderbook (logs_of cs);
              handled_block = handled_after cs to_block context.handled_block;
            })
            rest
  unfolding handle_chunks
  handle_chunks-logs to_block [] rest context t = refl
  handle_chunks-logs to_block (c ∷ cs) rest context t =
      rw (prepare-logs c, handle_events-logs c context t.0)
        (handle_chunks-logs to_block cs rest _ t.1 ∙ rw (handled_after_self, handle_logs-append))

  -- An update whose pages all come through: from 25 blocks before the last handled one, it
  -- replaces what is known by what the node reports, and then counts the node's current block as
  -- handled if there was a page.
  pub update_complete :
      (context : Context) (current : ℕ) (cs : List (List Log))
      → node.block_number ≡ some current
      → context.handled_block - block_confirmation_count ≤ current
      → node.past_events (context.handled_block - block_confirmation_count) current
        ≡ some (chunks_of cs [])
      → All AllTimed cs
      → update node context ≡ (
        record {
          orderbook =
              resync
                (context.handled_block - block_confirmation_count)
                (logs_of cs)
                context.orderbook;
          handled_block = handled_after cs current context.handled_block;
        },
        true,
      )
  unfolding update_to replace_events handle_chunks
  update_complete context current cs b l p t =
      simp b (simp (le→leb _ _ l) (simp p (handle_chunks-logs current cs [] _ t)))

  -- Where a page fails, the pages before it stay, the others are missing, and yet the node's
  -- current block counts as handled as soon as one page came through.
  pub update_interrupted :
      (context : Context) (current : ℕ) (c : List Log) (cs : List (List Log))
      (rest : List (Option (List RawEvent)))
      → node.block_number ≡ some current
      → context.handled_block - block_confirmation_count ≤ current
      → node.past_events (context.handled_block - block_confirmation_count) current
        ≡ some (chunks_of (c ∷ cs) (none ∷ rest))
      → All AllTimed (c ∷ cs)
      → update node context ≡ (
        record {
          orderbook =
              resync
                (context.handled_block - block_confirmation_count)
                (logs_of (c ∷ cs))
                context.orderbook;
          handled_block = current;
        },
        false,
      )
  unfolding update_to replace_events handle_chunks
  update_interrupted context current c cs rest b l p t =
      simp b (simp (le→leb _ _ l) (simp p (handle_chunks-logs current (c ∷ cs) (none ∷ rest) _ t)))

-- The pages of an answer, and what makes an update with them go through.
pub record Answers (node : Node) (context : Context) (current : ℕ)
    (pages : List (Option (List RawEvent))) : Type 0 where
  pub cached : (hs : List ℕ) → node.prepare_cache hs ≡ true
  pub numbered : node.block_number ≡ some current
  pub not_behind : context.handled_block - block_confirmation_count ≤ current
  pub paged :
      node.past_events (context.handled_block - block_confirmation_count) current ≡ some pages

-- An interrupted update loses events. Its first page `c` came through and a later one failed. The
-- next update then starts at 25 blocks before the interrupted one's current block; if it goes
-- through, with events from there on, the registry below that start is still what the pages
-- before the failure made it: events of the failed pages in those blocks are not fetched again.
pub interrupted_pages_lost :
    (node node' : Node) (context : Context) (current current' : ℕ) (c : List Log)
    (cs cs' : List (List Log)) (rest : List (Option (List RawEvent)))
    → Answers node context current (chunks_of (c ∷ cs) (none ∷ rest))
    → All (λ ls. All (λ l. node.block_timestamp l.block_hash ≡ some l.block_timestamp) ls) (c ∷ cs)
    → Answers node' (update node context).0 current' (chunks_of cs' [])
    → All (λ ls. All (λ l. node'.block_timestamp l.block_hash ≡ some l.block_timestamp) ls) cs'
    → All (λ l. current - block_confirmation_count ≤ l.block_number) (logs_of cs')
    → delete_events_starting_at_block
        (update node' (update node context).0).0.orderbook
        (current - block_confirmation_count)
      ≡ delete_events_starting_at_block
          (resync
            (context.handled_block - block_confirmation_count)
            (logs_of (c ∷ cs))
            context.orderbook)
          (current - block_confirmation_count)
interrupted_pages_lost node node' context current current' c cs cs' rest a t a' t' late =
    let first =
      update_interrupted node a.cached context current c cs rest a.numbered a.not_behind a.paged
        t in
    let second =
      update_complete node' a'.cached (update node context).0 current' cs' a'.numbered a'.not_behind
        a'.paged t' in
    ap
      (λ (r : Context × Bool).
        delete_events_starting_at_block r.0.orderbook (current - block_confirmation_count))
      second
    ∙ ap
        (λ (r : Context × Bool).
          delete_events_starting_at_block
            (resync (r.0.handled_block - block_confirmation_count) (logs_of cs') r.0.orderbook)
            (current - block_confirmation_count))
        first
    ∙ delete-handle_logs (current - block_confirmation_count) (logs_of cs') _ late
    ∙ delete-delete _ _
