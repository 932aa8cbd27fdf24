-- ===== src/Hooks/Tests.antt =====
-- The handlers at concrete events.
use doover.Base.{ℕ, suc, true, false, none, some, [], ◌∷◌, ◌≡◌, refl, length}
use doover.Base.Chars.{chars}
use doover.Paths.{root_dir, normal, FilePath}
use doover.Registry.Rules.{Effect, Rule, snapshot_restore, positional, Checked, is_protected}
use doover.Registry.Lookup.{with_floor, best}
use doover.Registry.Overlay.{not_a_dir}
use doover.Snapshot.Manifest.{Manifest, present}
use doover.Snapshot.Errors.{good}
use doover.Journal.Runs.{empty}
use doover.Journal.Records.{ok}
use doover.Journal.Tables.{has_session, max_id}
use doover.Journal.Writes.{attach_manifest}
use doover.Snapshot.Same.{path_eq}
use doover.Undo.Types.{Machine}
use doover.Maintenance.Gc.{GcStore}
use doover.Resolver.Outcome.{Resolution, destructive, insert_path}
use doover.Resolver.Syntax.{
  simple, segment, end_of_pipeline, end_of_branches, item, end_of_list, program, piece, text_piece,
  last_piece, word_item,
}
use doover.Resolver.Scope.{Env}
use doover.Hooks.Events.{snapshot_cwd, HookConfig, PreEvent, PostEvent, handled, hook_deadline}
use doover.Hooks.Io.{HookIo}
use doover.Hooks.Pre.{PreOutcome, protect, handle_pre, targets_of, cwd_fallback, begun}
use doover.Hooks.Protected.{AreCaptured}
use doover.Hooks.Guarded.{HasCaptures, protect-AreCaptured, handle_pre-protects}

abbrev rm_rule : Rule
rm_rule = record {
  id = "rm";
  matcher = record { command = some "rm"; subcommand = none; flags_any = none; redirect = none };
  effect = Effect.destructive;
  scope = some (record {
    paths = positional;
    globs = true;
    skip = 0;
    flag_args = [];
    path_flags = [];
    recursive_flags = [];
  });
  undo = snapshot_restore;
  notes = none;
}

abbrev work : FilePath
work = root_dir ∷ normal "work" ∷ []

-- Each command line is read as `rm x`.
abbrev env : Env
env = record {
  parse = λ command. program (
      item
        (segment
          (simple (record {
            prefix = [];
            word_or_name = some (chars "rm");
            suffix = word_item (chars "x") ∷ [];
          }))
          end_of_pipeline)
        end_of_branches end_of_list
      ∷ []);
  parse_word = λ raw. some (piece (text_piece raw) last_piece);
  is_symlink = λ p. false;
  read_link = λ p. none;
  exists = λ p. false;
  escape = λ t. t;
  is_pattern = λ t. true;
  glob = λ budget n pattern. record { received = []; timed_out = false };
  parse_u64 = λ s. none;
  glob_ms = none;
  cwd = work;
  home = work;
}

abbrev shot : FilePath → Manifest
shot path = record {
  schema = 1;
  path = path;
  root = present;
  entries = [];
  truncated = false;
  skipped = 0;
  warnings = [];
  skipped_dirs = [];
}

abbrev gc_store : GcStore ℕ
gc_store = record {
  clean_tmp = λ age dry w. (good 0, w);
  prune = λ hashes age dry w. (good (0, 0), w);
  total_bytes = λ w. good 0;
  journal_bytes = λ w. 0;
  free_bytes = λ w. none;
  vacuum = λ w. w;
}

abbrev io : HookIo ℕ
io = record {
  fault = λ call w. none;
  open_home = λ w. (none, w);
  yaml = λ file contents. Checked.ok (rm_rule ∷ []);
  shipped = ("shipped.yaml", "") ∷ [];
  overlay = λ w. not_a_dir;
  env = λ w. env;
  open_store = λ w. (none, w);
  snapshot_scoped = λ path limits w. (good (shot path), suc w);
  clock = λ w. w;
  gc_store = gc_store;
  late = λ budget round. false;
  marker_modified = λ w. none;
  touch_marker = λ w. w;
  gap_text = λ gap. "gap";
  path_text = λ path. "path";
  redact = λ command. command;
}

abbrev cfg : HookConfig
cfg = record {
  home = work;
  limits = record { max_files = 100; max_bytes = 1000; max_duration = some 5000 };
  unknown_policy = snapshot_cwd;
  maintenance = record { cap_bytes = none; min_free_bytes = none; gc_every = 1; keep_days = 7 };
}

abbrev event : PreEvent
event = record {
  session_id = "s";
  tool_use_id = "t";
  cwd = work;
  command = "rm x";
  background = false;
}

abbrev post_event : PostEvent
post_event = record { session_id = "s"; tool_use_id = "t"; duration_ms = 4; background = false }

abbrev start : Machine ℕ
start = record { db = empty; world = 10 }

journaled : Machine ℕ
journaled = (handle_pre io cfg event start).1

abbrev protected : PreOutcome
protected = record { action_id = 1; manifests_attached = 1; severity = destructive; gaps = [] }

handled_event : (handle_pre io cfg event start).0 ≡ handled protected
unfolding handle_pre has_session with_floor best is_protected insert_path attach_manifest max_id
handled_event = refl

handle_pre-protects_example : HasCaptures protected start.db (handle_pre io cfg event start).1.db
handle_pre-protects_example =
    handle_pre-protects io cfg event start protected refl handled_event refl refl

abbrev half_known : Resolution
half_known = record {
  severity = destructive;
  paths = (root_dir ∷ normal "work" ∷ normal "x" ∷ []) ∷ [];
  rule_id = some "rm";
  has_unknown = true;
}

no_gaps : (protect io cfg event half_known 1 journaled).0.gaps ≡ []
unfolding protect journaled handle_pre path_eq attach_manifest has_session with_floor best
    is_protected insert_path max_id
no_gaps = refl

protect-AreCaptured_example :
    ((protect io cfg event half_known 1 journaled).0.manifests_attached
      ≡ length (targets_of half_known (cwd_fallback snapshot_cwd half_known work)))
    × AreCaptured io cfg
        (hook_deadline cfg.limits (io.clock (io.open_store journaled.world).1))
        1
        (targets_of half_known (cwd_fallback snapshot_cwd half_known work))
        (begun io journaled.db (io.open_store journaled.world).1)
protect-AreCaptured_example = protect-AreCaptured io cfg event half_known 1 journaled no_gaps
