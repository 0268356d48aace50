-- ===== src/Json/Keys.antt =====
-- Two values of one key.
use fcgi_cpp_appserver.Common.{◌≡◌, ap, arith}
use fcgi_cpp_appserver.Common.Bytes.{Bytes, equal_refl}
use fcgi_cpp_appserver.Json.{Value, object, Items, no_items, item, add_item, serialize}

add_item_twice :
    {Double : Type 0} (key : Bytes) (v w : Value Double) (m : Items Double)
    → add_item key w (add_item key v m) ≡ add_item key v m
unfolding add_item
add_item_twice key v w no_items = ground (arith, equal_refl key)
add_item_twice key v w (item k x m) = ground (arith, equal_refl key, add_item_twice key v w m)

-- Of two values that are added for one key the first is written, and the second not at all.
pub serialize-add_item :
    {Double : Type 0} (show_double : Double → Bytes) (key : Bytes) (v w : Value Double)
    (m : Items Double)
    → serialize show_double (object (add_item key w (add_item key v m)))
      ≡ serialize show_double (object (add_item key v m))
serialize-add_item show_double key v w m =
    ap (λ (x : Items _). serialize show_double (object x)) (add_item_twice key v w m)
