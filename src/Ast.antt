-- ===== src/Ast.antt =====
-- The syntax tree of the compiler: make_node_* of toolchain/epc_bootstrap.c. A node is a list
-- whose first cell is its kind; the cells behind it are the fields, in the order of the calls of
-- append_list. The optimiser, which changes the cells of a node, is in Fold.
use ern_os.Base.{ℕ, zero, suc}
use ern_os.Base.Int.{ℤ, pos}
use ern_os.Bytes.{Bytes}

-- A `long long` of the compiler: a number, a pointer to a string, or a pointer to a list, which
-- is `nil`, or `cons` with its first cell and the list of the others.
pub data Value : Type 0 where
  num : ℤ → Value
  str : Bytes → Value
  nil : Value
  cons : Value → Value → Value

abbrev pub create_list : Value
create_list = nil

-- append_list on a list; what is no list has no cells to append to.
unfoldable pub append_list : Value → Value → Value
append_list nil v = cons v nil
append_list (cons x xs) v = cons x (append_list xs v)
append_list (num n) v = num n
append_list (str s) v = str s

-- get_list, with 0 out of range.
unfoldable pub get_list : Value → ℕ → Value
get_list (cons x xs) zero = x
get_list (cons x xs) (suc i) = get_list xs i
get_list v i = num (pos 0)

-- A list of a kind's number and fields, appended one by one.
abbrev kind : ℕ → Value
kind t = append_list create_list (num (pos t))

unfoldable pub make_node_int : Value → Value
unfolding append_list
make_node_int val = append_list (kind 1) val

unfoldable pub make_node_str : Value → Value
unfolding append_list
make_node_str val = append_list (kind 2) val

unfoldable pub make_node_ident : Value → Value
unfolding append_list
make_node_ident name = append_list (kind 3) name

unfoldable pub make_node_binary : Value → Value → Value → Value
unfolding append_list
make_node_binary left op right = append_list (append_list (append_list (kind 4) left) op) right

unfoldable pub make_node_comp : Value → Value → Value → Value
unfolding append_list
make_node_comp left op right = append_list (append_list (append_list (kind 5) left) op) right

unfoldable pub make_node_call : Value → Value → Value
unfolding append_list
make_node_call name args = append_list (append_list (kind 6) name) args

unfoldable pub make_node_set : Value → Value → Value
unfolding append_list
make_node_set var expr = append_list (append_list (kind 7) var) expr

unfoldable pub make_node_return : Value → Value
unfolding append_list
make_node_return expr = append_list (kind 8) expr

unfoldable pub make_node_display : Value → Value
unfolding append_list
make_node_display expr = append_list (kind 9) expr

unfoldable pub make_node_if : Value → Value → Value → Value
unfolding append_list
make_node_if test then_b else_b =
    append_list (append_list (append_list (kind 10) test) then_b) else_b

unfoldable pub make_node_repeat_while : Value → Value → Value
unfolding append_list
make_node_repeat_while test body = append_list (append_list (kind 11) test) body

unfoldable pub make_node_func : Value → Value → Value → Value → Value
unfolding append_list
make_node_func name params body is_async =
    append_list (append_list (append_list (append_list (kind 12) name) params) body) is_async

unfoldable pub make_node_program :
    Value → Value → Value → Value → Value → Value → Value → Value → Value
unfolding append_list
make_node_program imports externals funcs struct_defs enum_defs method_defs trait_defs trait_impls =
    append_list
      (append_list
        (append_list
          (append_list
            (append_list
              (append_list
                (append_list (append_list (append_list (kind 13) imports) externals) funcs)
                struct_defs)
              enum_defs)
            method_defs)
          trait_defs)
        trait_impls)
      create_list

unfoldable pub make_node_spawn : Value → Value → Value
unfolding append_list
make_node_spawn func_name args = append_list (append_list (kind 15) func_name) args

unfoldable pub make_node_send : Value → Value → Value
unfolding append_list
make_node_send chan val = append_list (append_list (kind 16) chan) val

unfoldable pub make_node_channel : Value
unfolding append_list
make_node_channel = kind 17

unfoldable pub make_node_receive : Value → Value
unfolding append_list
make_node_receive chan = append_list (kind 18) chan

unfoldable pub make_node_external : Value → Value → Value → Value
unfolding append_list
make_node_external name params ret_type =
    append_list (append_list (append_list (kind 19) name) params) ret_type

unfoldable pub make_node_borrow : Value → Value
unfolding append_list
make_node_borrow target = append_list (kind 20) target

unfoldable pub make_node_await : Value → Value
unfolding append_list
make_node_await target = append_list (kind 21) target

unfoldable pub make_node_logical : Value → Value → Value → Value
unfolding append_list
make_node_logical left op right = append_list (append_list (append_list (kind 14) left) op) right

unfoldable pub make_node_field_access : Value → Value → Value
unfolding append_list
make_node_field_access obj field_name = append_list (append_list (kind 22) obj) field_name

unfoldable pub make_node_field_set : Value → Value → Value → Value
unfolding append_list
make_node_field_set obj field_name val =
    append_list (append_list (append_list (kind 23) obj) field_name) val

unfoldable pub make_node_struct_create : Value → Value → Value
unfolding append_list
make_node_struct_create struct_name fields = append_list (append_list (kind 24) struct_name) fields

unfoldable pub make_node_method_call : Value → Value → Value → Value
unfolding append_list
make_node_method_call obj method_name args =
    append_list (append_list (append_list (kind 25) obj) method_name) args

unfoldable pub make_node_enum_create : Value → Value → Value
unfolding append_list
make_node_enum_create variant_name args = append_list (append_list (kind 26) variant_name) args

unfoldable pub make_node_match : Value → Value → Value
unfolding append_list
make_node_match expr arms = append_list (append_list (kind 27) expr) arms

unfoldable pub make_node_for_each : Value → Value → Value → Value
unfolding append_list
make_node_for_each var_name iter_expr body =
    append_list (append_list (append_list (kind 28) var_name) iter_expr) body

unfoldable pub make_node_break : Value
unfolding append_list
make_node_break = kind 29

unfoldable pub make_node_continue : Value
unfolding append_list
make_node_continue = kind 30

unfoldable pub make_node_bool : Value → Value
unfolding append_list
make_node_bool val = append_list (kind 31) val

unfoldable pub make_node_unary_not : Value → Value
unfolding append_list
make_node_unary_not expr = append_list (kind 32) expr

unfoldable pub make_node_try : Value → Value
unfolding append_list
make_node_try expr = append_list (kind 33) expr

unfoldable pub make_node_closure : Value → Value → Value
unfolding append_list
make_node_closure params body = append_list (append_list (kind 34) params) body

unfoldable pub make_node_list_lit : Value → Value
unfolding append_list
make_node_list_lit elements = append_list (kind 35) elements

unfoldable pub make_node_expr_stmt : Value → Value
unfolding append_list
make_node_expr_stmt expr = append_list (kind 36) expr

unfoldable pub make_node_struct_def : Value → Value → Value
unfolding append_list
make_node_struct_def name fields = append_list (append_list (kind 37) name) fields

unfoldable pub make_node_enum_def : Value → Value → Value
unfolding append_list
make_node_enum_def name variants = append_list (append_list (kind 38) name) variants

unfoldable pub make_node_method_def : Value → Value → Value → Value → Value
unfolding append_list
make_node_method_def method_name struct_name params body =
    append_list (append_list (append_list (append_list (kind 39) method_name) struct_name) params)
      body

unfoldable pub make_node_trait_def : Value → Value → Value
unfolding append_list
make_node_trait_def name method_sigs = append_list (append_list (kind 40) name) method_sigs

unfoldable pub make_node_trait_impl : Value → Value → Value → Value
unfolding append_list
make_node_trait_impl trait_name type_name methods =
    append_list (append_list (append_list (kind 41) trait_name) type_name) methods

-- set_list on a list, which does nothing out of range.
unfoldable pub set_list_cell : Value → ℕ → Value → Value
set_list_cell (cons x xs) zero v = cons v xs
set_list_cell (cons x xs) (suc i) v = cons x (set_list_cell xs i v)
set_list_cell nil i v = nil
set_list_cell (num n) i v = num n
set_list_cell (str s) i v = str s
