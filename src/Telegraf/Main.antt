-- ===== src/Telegraf/Main.antt =====
-- telegraf/files/haproxy_peers_stats.py: `query`, `main` and the script's `try`. HAProxy behind its
-- socket is the parameter `haproxy`, and `decode` the decoding of the bytes.
pub mod Exit
use ffmuc_salt_public.Prelude.{ℕ, String, ◌<>◌, Option, none, some, List, [], ◌∷◌, ◌++◌, map}
use ffmuc_salt_public.Prelude.Result.{
  Error, Result, ok, err, os_error, ◌>>=◌, salt_invocation_error, command_execution_error,
  key_error, value_error, index_error, type_error, attribute_error, unbound_error, overflow_error,
  runtime_error, exception,
}
use ffmuc_salt_public.Prelude.Text.{join}
use ffmuc_salt_public.Telegraf.Duration.{Float}
use ffmuc_salt_public.Telegraf.Peers.{Peer, parse_peers}
use ffmuc_salt_public.Telegraf.Tables.{parse_tables}
use ffmuc_salt_public.Telegraf.Lines.{peer_line, table_line}

-- What `recv` returns, and what `connect`, `sendall` or `recv` raises, which is an OSError. An empty
-- chunk, and the end of the list, stand for the end of the stream.
pub data Event : Type 0 where
  chunk : List ℕ → Event
  broken : String → Event

-- The loop of `query`: the chunks, joined
unfoldable pub receive : List Event → Result (List ℕ)
receive [] = ok []
receive (broken text ∷ rest) = err (os_error text)
receive (chunk [] ∷ rest) = ok []
receive (chunk (b ∷ bytes) ∷ rest) = receive rest >>= λ more. ok ((b ∷ bytes) ++ more)

pub data Outcome : Type 0 where
  printed : (stdout : String) → Outcome
  silent : Outcome
  failed : (stderr : String) (code : ℕ) → Outcome

-- `except OSError`
unfoldable pub caught : Result Outcome → Result Outcome
caught (ok outcome) = ok outcome
caught (err (os_error text)) = ok (failed ("haproxy_peers_stats: " <> text) 1)
caught (err (salt_invocation_error s)) = err (salt_invocation_error s)
caught (err (command_execution_error s)) = err (command_execution_error s)
caught (err (key_error s)) = err (key_error s)
caught (err (value_error s)) = err (value_error s)
caught (err index_error) = err index_error
caught (err type_error) = err type_error
caught (err attribute_error) = err attribute_error
caught (err (unbound_error s)) = err (unbound_error s)
caught (err (overflow_error s)) = err (overflow_error s)
caught (err (runtime_error s)) = err (runtime_error s)
caught (err (exception s)) = err (exception s)

-- `if lines: print("\n".join(lines))`
unfoldable pub show : List String → Outcome
unfolding join
show [] = silent
show (line ∷ lines) = printed (join "\n" (line ∷ lines))

module _ (float : Float) where
  unfoldable pub peer_lines : List Peer → Result (List String)
  unfolding peer_line
  peer_lines [] = ok []
  peer_lines (p ∷ peers) =
      peer_line float p >>= λ line. peer_lines peers >>= λ lines. ok (line ∷ lines)

  module _ (haproxy : String → List Event) (decode : List ℕ → String) where
    -- `query`
    unfoldable pub query : String → Result String
    unfolding receive
    query command = receive (haproxy command) >>= λ bytes. ok (decode bytes)

    -- `main`
    unfoldable pub main : Result Outcome
    unfolding query peer_lines show table_line parse_peers parse_tables
    main = do
      peers ← query "show peers"
      lines ← peer_lines (parse_peers peers)
      tables ← query "show table"
      found ← parse_tables tables
      ok (show (lines ++ map table_line found))

    -- What stands under `if __name__ == "__main__"`
    unfoldable pub script : Result Outcome
    unfolding main caught
    script = caught main
