-- ===== src/Resolver/Syntax.antt =====
-- The syntax trees of the shell parser, as far as crates/doover-core/src/resolver.rs tells them
-- apart. A word is carried as its source text.
use doover.Base.{Bool, Option, List}
use doover.Base.Chars.{Text}

-- `WordPiece`; the pieces of a word are a list of them.
mutual
  pub data WordPiece : Type 0 where
    text_piece : Text → WordPiece
    single_quoted_text : Text → WordPiece
    ansi_c_quoted_text : Text → WordPiece
    double_quoted_sequence : Pieces → WordPiece
    gettext_double_quoted_sequence : Pieces → WordPiece
    tilde_home_expansion : WordPiece
    other_tilde_expansion : WordPiece
    parameter_expansion : WordPiece
    command_substitution : WordPiece
    backquoted_command_substitution : WordPiece
    escape_sequence : Text → WordPiece
    arithmetic_expression : WordPiece

  pub data Pieces : Type 0 where
    last_piece : Pieces
    piece : WordPiece → Pieces → Pieces

pub data IoFileRedirectKind : Type 0 where
  read write append read_and_write clobber duplicate_input duplicate_output : IoFileRedirectKind

pub data IoFileRedirectTarget : Type 0 where
  filename : Text → IoFileRedirectTarget
  fd : IoFileRedirectTarget
  process_substitution_target : IoFileRedirectTarget
  duplicate : Text → IoFileRedirectTarget

-- The flag of a here-document says that it is expanded; that of `output_and_error` that it appends.
pub data IoRedirect : Type 0 where
  file_redirect : IoFileRedirectKind → IoFileRedirectTarget → IoRedirect
  here_document : Bool → Text → IoRedirect
  here_string : Text → IoRedirect
  output_and_error : Text → Bool → IoRedirect

pub data PrefixOrSuffixItem : Type 0 where
  io_redirect : IoRedirect → PrefixOrSuffixItem
  word_item : Text → PrefixOrSuffixItem
  assignment_word : Text → PrefixOrSuffixItem
  process_substitution : PrefixOrSuffixItem

pub record SimpleCommand : Type 0 where
  pub prefix : List PrefixOrSuffixItem
  pub word_or_name : Option Text
  pub suffix : List PrefixOrSuffixItem

-- A list item is a first pipeline and those behind its `&&` and `||`.
mutual
  pub data Command : Type 0 where
    simple : SimpleCommand → Command
    compound : CompoundCommand → List IoRedirect → Command
    function : Command
    extended_test : List IoRedirect → Command

  pub data CompoundCommand : Type 0 where
    subshell : CompoundList → CompoundCommand
    brace_group : CompoundList → CompoundCommand
    control_flow : CompoundCommand

  pub data Pipeline : Type 0 where
    end_of_pipeline : Pipeline
    segment : Command → Pipeline → Pipeline

  pub data Branches : Type 0 where
    end_of_branches : Branches
    branch : Pipeline → Branches → Branches

  pub data CompoundList : Type 0 where
    end_of_list : CompoundList
    item : Pipeline → Branches → CompoundList → CompoundList

-- What tokenizing and parsing a command line gives.
pub data Parsed : Type 0 where
  program : List CompoundList → Parsed
  parse_error : Parsed
  parser_panics : Parsed
