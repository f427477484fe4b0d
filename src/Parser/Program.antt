-- ===== src/Parser/Program.antt =====
-- Declarations: parse_program, parse_struct_def, parse_enum_def, parse_method_def,
-- parse_trait_def, parse_trait_impl and parse_function_async of toolchain/epc_bootstrap.c.
use ern_os.Base.{ℕ, suc, Bool, true, false, ◌==◌, if◌then◌else◌}
use ern_os.Base.Int.{pos}
use ern_os.Bytes.{codes}
use ern_os.Lexer.{get_token_type, get_token_value}
use ern_os.Ast.{
  Value, num, str, create_list, append_list, set_list_cell, make_node_func, make_node_program,
  make_node_external, make_node_struct_def, make_node_enum_def, make_node_method_def,
  make_node_trait_def, make_node_trait_impl,
}
use ern_os.Parser.{Parse, return, ◌>>=◌, ◌>>◌, loop}
use ern_os.Parser.State.{
  peek_token, peek_token_at, advance_token, expect_token_type, accept, skip_newlines,
  set_parser_error,
}
use ern_os.Parser.Lists.{
  parse_name, parse_name_after, parse_param_list, parse_with_list, parse_variant_field, parse_lines,
}
use ern_os.Parser.Calls.{Calls}
use ern_os.Parser.Statement.{parse_statement, calls}

-- The lists of declarations of a program, in the order they are met.
pub record Program : Type 0 where
  pub imports : Value
  pub externals : Value
  pub funcs : Value
  pub struct_defs : Value
  pub enum_defs : Value
  pub method_defs : Value
  pub trait_defs : Value
  pub trait_impls : Value
  pub top_constants : Value

abbrev pub no_declarations : Program
no_declarations = record {
  imports = create_list;
  externals = create_list;
  funcs = create_list;
  struct_defs = create_list;
  enum_defs = create_list;
  method_defs = create_list;
  trait_defs = create_list;
  trait_impls = create_list;
  top_constants = create_list;
}

-- The first of the lines of a declaration: a colon, the end of the line and an indentation.
unfoldable pub open_lines : ℕ → Parse ℕ
open_lines n = do expect_token_type 22; skip_newlines n; expect_token_type 29

-- `returning` and a type, both dropped.
unfoldable pub skip_return_type : Parse Bool
skip_return_type = do
  typed ← accept 43
  if typed then (advance_token >> return true) else return false

module _ (n : ℕ) (c : Calls) where
  unfoldable pub parse_field : Value → ℕ → Parse Value
  parse_field fields t = do
    advance_token
    if t == 45
        then (do
          field_name ← parse_name
          field_type ← parse_name_after 42 (codes "Int")
          has_default ← accept 72
          field_default ← if has_default then c.expr 0 else return (num (pos 0))
          return (
              append_list fields (
                append_list (append_list (append_list create_list field_name) field_type)
                  field_default)))
        else return fields

  unfoldable pub parse_struct_def : Parse Value
  parse_struct_def = do
    expect_token_type 1
    expect_token_type 44
    name ← parse_name
    open_lines n
    fields ← parse_lines n parse_field
    return (make_node_struct_def name fields)

  unfoldable pub parse_variant : Value → ℕ → Parse Value
  parse_variant variants t = do
    advance_token
    if t == 48
        then (do
          vname ← parse_name
          vfields ← parse_with_list n parse_variant_field
          return (append_list variants (append_list (append_list create_list vname) vfields)))
        else return variants

  unfoldable pub parse_enum_def : Parse Value
  parse_enum_def = do
    expect_token_type 1
    expect_token_type 47
    name ← parse_name
    open_lines n
    variants ← parse_lines n parse_variant
    return (make_node_enum_def name variants)

  unfoldable pub parse_method_def : Parse Value
  parse_method_def = do
    expect_token_type 1
    method_name ← parse_name
    expect_token_type 56
    struct_name ← parse_name
    params ← parse_param_list n
    skip_return_type
    expect_token_type 22
    skip_newlines n
    body ← c.block
    return (make_node_method_def method_name struct_name params body)

  unfoldable pub parse_signature : Value → ℕ → Parse Value
  parse_signature method_sigs t = do
    advance_token
    if t == 1
        then (do
          sig_name ← parse_name
          sig_params ← parse_param_list n
          skip_return_type
          accept 22
          return
              (append_list method_sigs (append_list (append_list create_list sig_name) sig_params)))
        else return method_sigs

  unfoldable pub parse_trait_def : Parse Value
  parse_trait_def = do
    expect_token_type 1
    expect_token_type 57
    name ← parse_name
    open_lines n
    method_sigs ← parse_lines n parse_signature
    return (make_node_trait_def name method_sigs)

  -- The return type is one more cell of the function's node.
  unfoldable pub parse_function_async : ℕ → Parse Value
  parse_function_async is_async = do
    expect_token_type 1
    name ← parse_name
    params ← parse_param_list n
    ret_type ← parse_name_after 43 (codes "")
    expect_token_type 22
    accept 28
    body ← c.block
    return (append_list (make_node_func name params body (num (pos is_async))) ret_type)

  unfoldable pub parse_method : Value → ℕ → Parse Value
  parse_method methods t =
      if t == 1
      then (parse_function_async 0 >>= λ method. return (append_list methods method))
      else (advance_token >> return methods)

  unfoldable pub parse_trait_impl : Parse Value
  parse_trait_impl = do
    expect_token_type 58
    trait_name ← parse_name
    expect_token_type 53
    type_name ← parse_name
    open_lines n
    methods ← parse_lines n parse_method
    return (make_node_trait_impl trait_name type_name methods)

  -- An import, or nothing where no string follows: then the loop stops.
  unfoldable pub parse_import : (Program → Parse Program) → Program → Parse Program
  parse_import again p = do
    advance_token
    tok_path ← advance_token
    if get_token_type tok_path == 26
        then (do
          alias_val ← parse_name_after 42 (codes "")
          again (record p {
            imports =
                append_list p.imports (
                  append_list (append_list create_list (str (get_token_value tok_path))) alias_val);
          }))
        else return p

  unfoldable pub parse_external : Parse Value
  parse_external = do
    advance_token
    expect_token_type 1
    name ← parse_name
    params ← parse_param_list n
    ret_type ← parse_name_after 43 (codes "")
    accept 22
    accept 28
    return (make_node_external name params ret_type)

  -- What `define` begins: the next two tokens tell.
  unfoldable pub parse_definition : Program → Parse Program
  parse_definition p = do
    tok2 ← peek_token_at 1
    tok3 ← peek_token_at 2
    let t2 = get_token_type tok2
    if t2 == 44
        then (parse_struct_def >>= λ d.
            return (record p { struct_defs = append_list p.struct_defs d }))
        else if t2 == 47
        then (parse_enum_def >>= λ d. return (record p { enum_defs = append_list p.enum_defs d }))
        else if t2 == 57
        then (parse_trait_def >>= λ d.
            return (record p { trait_defs = append_list p.trait_defs d }))
        else if get_token_type tok3 == 56
        then (parse_method_def >>= λ d.
            return (record p { method_defs = append_list p.method_defs d }))
        else (parse_function_async 0 >>= λ d. return (record p { funcs = append_list p.funcs d }))

  -- The declaration that begins with a token of the type.
  unfoldable pub declaration_of : (Program → Parse Program) → Program → ℕ → Parse Program
  declaration_of again p t =
      if t == 31
      then return p
      else if t == 28
      then (advance_token >> again p)
      else if t == 32
      then parse_import again p
      else if t == 38
      then (parse_external >>= λ d. again (record p { externals = append_list p.externals d }))
      else if t == 65
      then (do
        advance_token
        d ← parse_function_async 1
        again (record p { funcs = append_list p.funcs d }))
      else if t == 1
      then (parse_definition p >>= again)
      else if t == 58
      then (parse_trait_impl >>= λ d.
          again (record p { trait_impls = append_list p.trait_impls d }))
      else if t == 2
      then (parse_statement n c >>= λ d.
          again (record p { top_constants = append_list p.top_constants d }))
      else (set_parser_error >> return p)

  -- A round of the loop of parse_program.
  unfoldable pub declaration : (Program → Parse Program) → Program → Parse Program
  declaration again p = do tok ← peek_token; declaration_of again p (get_token_type tok)

unfoldable pub program_node : Program → Value
program_node p =
    set_list_cell
      (make_node_program p.imports p.externals p.funcs p.struct_defs p.enum_defs p.method_defs
        p.trait_defs p.trait_impls)
      9 p.top_constants

-- parse_program, with calls of a depth.
unfoldable pub parse_program : ℕ → Parse Value
parse_program n = do
  p ← loop (suc n) (declaration (suc n) (calls n)) no_declarations
  return (program_node p)
