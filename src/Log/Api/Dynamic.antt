-- ===== src/Log/Api/Dynamic.antt =====
-- Registered dynamic logging of DDLog: the interface in include/CocoaLumberjack/DDLog.h and the class
-- methods of DDLog.m. The runtime's list of classes is given by the calls of `objc_getClassList`, one
-- after the other; a class that is registered keeps its level in a variable, as the header shows.
use cocoa_lumberjack.Base.{
  ℕ, zero, suc, ◌+◌, ◌*◌, ◌-◌, ◌^◌, ◌≡◌, refl, Bool, true, false, not, ◌&&◌, ◌||◌, List, [], ◌∷◌,
  map, Option, none, some, ◌==◌, ltb, if◌then◌else◌, keep, length, take, is_some, bytes_eq, arith,
}
use cocoa_lumberjack.FileName.{Bytes}

-- The selectors of class methods that matter: `ddLogLevel`, `ddSetLogLevel:` and the others.
pub data Selector : Type 0 where
  dd_log_level dd_set_log_level : Selector
  other : ℕ → Selector

-- A class with its own class methods, and its superclasses, the nearest first, each with its number and
-- its own class methods.
pub record Class : Type 0 where
  pub ident : ℕ
  pub name : Bytes
  pub methods : List Selector
  pub superclasses : List (ℕ × List Selector)

-- The protocol DDRegisteredDynamicLogging: a property of the class.
pub record RegisteredDynamicLogging (Runtime : Type 0) : Type 0 where
  pub dd_log_level : ℕ → Runtime → ℕ
  pub dd_set_log_level : ℕ → ℕ → Runtime → Runtime

-- The list of classes takes fuel for the rounds of its loop.
pub record DynamicLogging (Runtime : Type 0) : Type 0 where
  pub registered_classes : ℕ → Runtime → Option (List Class)
  pub registered_class_names : ℕ → Runtime → Option (List Bytes)
  pub level_for_class : Class → Runtime → ℕ
  pub level_for_class_with_name : Bytes → Runtime → ℕ
  pub set_level_for_class : ℕ → Class → Runtime → Runtime
  pub set_level_for_class_with_name : ℕ → Bytes → Runtime → Runtime

-- `(DDLogLevel)-1`
abbrev pub no_level : ℕ
no_level = 2 ^ 64 - 1

abbrev pub is_getter : Selector → Bool
is_getter Selector.dd_log_level = true
is_getter Selector.dd_set_log_level = false
is_getter (Selector.other s) = false

abbrev pub is_setter : Selector → Bool
is_setter Selector.dd_log_level = false
is_setter Selector.dd_set_log_level = true
is_setter (Selector.other s) = false

-- The loop of `isRegisteredClass:` on the iPhone over a class's own methods, with what was found so far.
registered_loop : Bool → Bool → List Selector → Bool
registered_loop getter setter [] = false
registered_loop getter setter (s ∷ ss) =
    let rest = registered_loop (getter || is_getter s) (setter || is_setter s) ss in
    if (getter || is_getter s) && (setter || is_setter s) then true else rest

pub is_registered_class_of_phone : Class → Bool
unfolding registered_loop
is_registered_class_of_phone c = registered_loop false false c.methods

abbrev pub has_method : (Selector → Bool) → List Selector → Bool
has_method p [] = false
has_method p (s ∷ ss) = p s || has_method p ss

-- The first class that has the method itself.
implementer : (Selector → Bool) → List (ℕ × List Selector) → Option ℕ
implementer p [] = none
implementer p ((ident, methods) ∷ cs) =
    if has_method p methods then some ident else implementer p cs

-- `class_getClassMethod`: the number of the class whose method is found, which may be inherited.
pub class_get_class_method : Class → (Selector → Bool) → Option ℕ
unfolding implementer
class_get_class_method c p = implementer p ((c.ident, c.methods) ∷ c.superclasses)

-- `isRegisteredClass:` on the Mac
pub is_registered_class : Class → Bool
unfolding class_get_class_method
is_registered_class c =
    is_some (class_get_class_method c is_getter) && is_some (class_get_class_method c is_setter)

registered_loop-found :
    (g t : Bool) (ss : List Selector)
    → g && t ≡ false
    → registered_loop g t ss ≡ (g || has_method is_getter ss) && (t || has_method is_setter ss)
unfolding registered_loop
registered_loop-found g t [] h = ground arith
registered_loop-found g t (Selector.dd_log_level ∷ ss) h =
    ground (arith, registered_loop-found true t ss)
registered_loop-found g t (Selector.dd_set_log_level ∷ ss) h =
    ground (arith, registered_loop-found g true ss)
registered_loop-found g t (Selector.other s ∷ ss) h = ground (arith, registered_loop-found g t ss)

-- For a class that inherits nothing, the loop over its methods, which stops early, answers what asking
-- the runtime for the getter and for the setter answers, so the two branches of the code agree.
pub is_registered_class-phone :
    (c : Class) → c.superclasses ≡ [] → is_registered_class c ≡ is_registered_class_of_phone c
unfolding is_registered_class class_get_class_method implementer is_registered_class_of_phone
is_registered_class-phone c e = ground (arith, e, registered_loop-found false false c.methods refl)

-- The classes that the runtime knows, those that each call of `objc_getClassList` sees, whether the
-- buffer of a round can be allocated, and the variables of the levels.
pub record Runtime : Type 0 where
  pub classes : List Class
  pub snapshot : ℕ → List Class
  pub memory : ℕ → Bool
  pub levels : ℕ → ℕ

-- The classes that the calls of `objc_getClassList` see, two in each round of `registeredClasses`:
-- the first only counts, the second fills a buffer of that size, with no more classes than it holds, and
-- answers how many there are. `memory` says whether the buffer of
-- a round could be allocated.
pub class_list : ℕ → ℕ → (ℕ → List Class) → (ℕ → Bool) → Option (List Class)
class_list zero round snapshot memory = none
class_list (suc fuel) round snapshot memory =
    let again = class_list fuel (round + 1) snapshot memory in
    let size = length (snapshot (2 * round)) in
    let count = length (snapshot (2 * round + 1)) in
    if size == 0 || not (memory round)
    then some []
    else if ltb size count || count == 0
    then again
    else some (take count (take size (snapshot (2 * round + 1))))

find_class : Bytes → List Class → Option Class
find_class name [] = none
find_class name (c ∷ cs) = if bytes_eq c.name name then some c else find_class name cs

-- `NSClassFromString`
pub class_from_name : Bytes → Runtime → Option Class
class_from_name name r = find_class name r.classes

abbrev pub dynamic_level : RegisteredDynamicLogging Runtime
dynamic_level = record {
  dd_log_level = λ c r. r.levels c;
  dd_set_log_level = λ c level r. record r { levels = λ e. if e == c then level else r.levels e };
}

-- The getter and the setter are those of the class that implements them.
level_for_class : Class → Runtime → ℕ
level_for_class c r = elim (class_get_class_method c is_getter) [
  | none ↦ no_level
  | some e ↦ if is_registered_class c then dynamic_level.dd_log_level e r else no_level
]

set_level_for_class : ℕ → Class → Runtime → Runtime
set_level_for_class level c r = elim (class_get_class_method c is_setter) [
  | none ↦ r
  | some e ↦ if is_registered_class c then dynamic_level.dd_set_log_level e level r else r
]

registered_classes : ℕ → Runtime → Option (List Class)
unfolding class_list
registered_classes fuel r = elim (class_list fuel 0 r.snapshot r.memory) [
  | none ↦ none
  | some cs ↦ some (keep is_registered_class cs)
]

registered_class_names : ℕ → Runtime → Option (List Bytes)
unfolding registered_classes
registered_class_names fuel r = elim (registered_classes fuel r) [
  | none ↦ none
  | some cs ↦ some (map (λ (c : Class). c.name) cs)
]

abbrev pub dynamic_logging : DynamicLogging Runtime
unfolding level_for_class set_level_for_class registered_classes registered_class_names
dynamic_logging = record {
  registered_classes = registered_classes;
  registered_class_names = registered_class_names;
  level_for_class = level_for_class;
  level_for_class_with_name =
      λ name r. elim (class_from_name name r) [ none ↦ no_level | some c ↦ level_for_class c r ];
  set_level_for_class = set_level_for_class;
  set_level_for_class_with_name = λ level name r. elim (class_from_name name r) [
    | none ↦ r
    | some c ↦ set_level_for_class level c r
  ];
}
