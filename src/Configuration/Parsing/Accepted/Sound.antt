-- ===== src/Configuration/Parsing/Accepted/Sound.antt =====
-- A configuration that the parser accepts is the one that the parameters describe.
use odrive_ros2_control.Prelude.{
  Each, ◌≡◌, refl, sym, ap, ◌≢◌, inl, inr, Bool, true, false, String, Option, none, some, List, [],
  ◌∷◌,
}
use mathlib.Core.Path.{subst}
use odrive_ros2_control.Fpu.{Fpu, zero_of}
use odrive_ros2_control.Configuration.{
  SensorConfig, CommandLimits, FeedbackLimits, JointConfig, HardwareConfiguration,
}
use odrive_ros2_control.Configuration.Conversions.{
  Conversions, parse_hex_serial, parse_bool, parse_int, parse_double,
}
use odrive_ros2_control.Configuration.Parsing.{
  ComponentInfo, HardwareInfo, ConfigError, Parsed, done, refused, ◌>>=◌, refuse_if, or_error, find,
  parse_or, value_or, optional_double, parse_optional_double, find_parameter, parse_sensor,
  parse_command_limits, parse_feedback_limits, crossed, check_watchdog, check_limits, parse_joint,
  parse_each, require_joints, parse_all,
}
use odrive_ros2_control.Configuration.Parsing.Accepted.{
  GivenOr, IsLimit, IsSensorOf, AreCommandLimits, AreFeedbackLimits, IsTimeout, Uncrossed,
  IsJointOf, IsConfigurationOf,
}

-- A chain that gives a value does not end early.
bind_inverse {ℓ κ} :
    {U : Type ℓ} {V : Type κ} (first : Parsed U) (next : U → Parsed V) {result : V}
    → (first >>= next) ≡ done result
    → (value : U) × (first ≡ done value) × (next value ≡ done result)
bind_inverse (refused message) next h = cc
bind_inverse (done value) next h = (value, refl, h)

done_injective {ℓ} : {A : Type ℓ} {a b : A} → done a ≡ done b → a ≡ b
done_injective {A} {a} {b} h = ap (λ (r : Parsed A). elim r [ done c ↦ c | refused _ ↦ a ]) h

or_error-eq-done {ℓ} :
    {A : Type ℓ} (o : Option A) (e : ConfigError) {a : A} → or_error o e ≡ done a → o ≡ some a
or_error-eq-done none e h = cc
or_error-eq-done (some a) e h = ap some (done_injective h)

refuse_if-eq-done : (b : Bool) (e : ConfigError) {a : Unit {0}} → refuse_if b e ≡ done a → b ≡ false
refuse_if-eq-done true e h = cc
refuse_if-eq-done false e h = refl

module _ {W F : Type 0} (u : Fpu W F) (lib : Conversions W) where
  open u use {lt, le}

  optional_double-IsLimit :
      (info : ComponentInfo) (key : String) (o : Option String) {v : Option W}
      → find info.parameters key ≡ o
      → optional_double u lib info key o ≡ done v
      → IsLimit u lib info key v
  optional_double-IsLimit info key none e h = subst (IsLimit u lib info key) (done_injective h) e
  optional_double-IsLimit info key (some text) e h =
      let (value, e1, h1) = bind_inverse (or_error (parse_double lib text) _) _ h in
      subst (IsLimit u lib info key) (done_injective h1) (text, e, or_error-eq-done _ _ e1)

  parse_optional_double-IsLimit :
      (info : ComponentInfo) (key : String) {v : Option W}
      → parse_optional_double u lib info key ≡ done v
      → IsLimit u lib info key v
  unfolding parse_optional_double
  parse_optional_double-IsLimit info key h =
      optional_double-IsLimit info key (find info.parameters key) refl h

  parse_sensor-IsSensorOf :
      (sensor : ComponentInfo) {c : SensorConfig}
      → parse_sensor u lib sensor ≡ done c
      → IsSensorOf u lib sensor c
  unfolding parse_sensor
  parse_sensor-IsSensorOf sensor h =
      let (text, e, h1) = bind_inverse (find_parameter u lib sensor "serial_number") _ h in
      let (serial, e1, h2) = bind_inverse (or_error (parse_hex_serial lib text) _) _ h1 in
      subst (IsSensorOf u lib sensor) (done_injective h2) (record {
        same_name = refl;
        serial_number_given = (text, or_error-eq-done _ _ e, or_error-eq-done _ _ e1);
      })

  check_watchdog-IsTimeout :
      (name : String) (enable : Bool) (timeout : W) {a : Unit {0}}
      → check_watchdog u lib name enable timeout ≡ done a
      → IsTimeout u lib enable timeout
  unfolding check_watchdog
  check_watchdog-IsTimeout name false timeout h = tt
  check_watchdog-IsTimeout name true timeout h =
      let (_, e, h1) = bind_inverse (refuse_if (le timeout (zero_of u)) _) _ h in
      (refuse_if-eq-done _ _ e, refuse_if-eq-done _ _ h1)

  check_limits-Uncrossed :
      (name : String) (l : CommandLimits W) {a : Unit {0}}
      → check_limits u lib name l ≡ done a
      → Uncrossed u lib l
  unfolding check_limits
  check_limits-Uncrossed name l h =
      let (_, e, h1) =
        bind_inverse (refuse_if (crossed u lib l.position_min l.position_max) _) _ h in
      let (_, e1, h2) =
        bind_inverse (refuse_if (crossed u lib l.velocity_min l.velocity_max) _) _ h1 in
      (refuse_if-eq-done _ _ e, refuse_if-eq-done _ _ e1, refuse_if-eq-done _ _ h2)

  parse_feedback_limits-AreFeedbackLimits :
      (joint : ComponentInfo) {l : FeedbackLimits W}
      → parse_feedback_limits u lib joint ≡ done l
      → AreFeedbackLimits u lib joint l
  unfolding parse_feedback_limits
  parse_feedback_limits-AreFeedbackLimits joint h =
      let parse = parse_optional_double u lib joint in
      let (_, a, h1) = bind_inverse (parse "max_believable_velocity") _ h in
      let (_, b, h2) = bind_inverse (parse "max_believable_effort") _ h1 in
      let (_, c, h3) = bind_inverse (parse "max_position_discontinuity") _ h2 in
      subst (AreFeedbackLimits u lib joint) (done_injective h3) (record {
        velocity_given = parse_optional_double-IsLimit joint _ a;
        effort_given = parse_optional_double-IsLimit joint _ b;
        discontinuity_given = parse_optional_double-IsLimit joint _ c;
      })

  parse_command_limits-AreCommandLimits :
      (joint : ComponentInfo) {l : CommandLimits W}
      → parse_command_limits u lib joint ≡ done l
      → AreCommandLimits u lib joint l
  unfolding parse_command_limits
  parse_command_limits-AreCommandLimits joint h =
      let parse = parse_optional_double u lib joint in
      let (_, a, h1) = bind_inverse (parse "command_position_min") _ h in
      let (_, b, h2) = bind_inverse (parse "command_position_max") _ h1 in
      let (_, c, h3) = bind_inverse (parse "command_velocity_min") _ h2 in
      let (_, d, h4) = bind_inverse (parse "command_velocity_max") _ h3 in
      let (_, e, h5) = bind_inverse (parse "command_effort_min") _ h4 in
      let (_, f, h6) = bind_inverse (parse "command_effort_max") _ h5 in
      let (_, g, h7) = bind_inverse (parse "max_position_rate") _ h6 in
      let (_, i, h8) = bind_inverse (parse "max_velocity_rate") _ h7 in
      let (_, j, h9) = bind_inverse (parse "max_effort_rate") _ h8 in
      subst (AreCommandLimits u lib joint) (done_injective h9) (record {
        position_min_given = parse_optional_double-IsLimit joint _ a;
        position_max_given = parse_optional_double-IsLimit joint _ b;
        velocity_min_given = parse_optional_double-IsLimit joint _ c;
        velocity_max_given = parse_optional_double-IsLimit joint _ d;
        effort_min_given = parse_optional_double-IsLimit joint _ e;
        effort_max_given = parse_optional_double-IsLimit joint _ f;
        position_rate_given = parse_optional_double-IsLimit joint _ g;
        velocity_rate_given = parse_optional_double-IsLimit joint _ i;
        effort_rate_given = parse_optional_double-IsLimit joint _ j;
      })

  value_or-GivenOr {ℓ} :
      {A : Type ℓ} (absent : A) (parse : String → Option A) (info : ComponentInfo) (key : String)
      (o : Option String) {a : A}
      → find info.parameters key ≡ o
      → value_or u lib absent parse info key o ≡ done a
      → GivenOr absent parse info key a
  value_or-GivenOr absent parse info key none e h = inl (e, sym (done_injective h))
  value_or-GivenOr absent parse info key (some text) e h = inr (text, e, or_error-eq-done _ _ h)

  parse_joint-IsJointOf :
      (joint : ComponentInfo) {c : JointConfig W}
      → parse_joint u lib joint ≡ done c
      → IsJointOf u lib joint c
  unfolding parse_joint
  parse_joint-IsJointOf joint h =
      let look = find_parameter u lib joint in
      let (serial_text, a, h1) = bind_inverse (look "serial_number") _ h in
      let (axis_text, b, h2) = bind_inverse (look "axis") _ h1 in
      let (timeout_text, c, h3) = bind_inverse (look "watchdog_timeout") _ h2 in
      let (enable_text, d, h4) = bind_inverse (look "enable_watchdog") _ h3 in
      let (invert, e, h5) =
        bind_inverse (parse_or u lib false (parse_bool lib) joint "invert_axis") _ h4 in
      let (serial, f, h6) = bind_inverse (or_error (parse_hex_serial lib serial_text) _) _ h5 in
      let (axis, g, h7) = bind_inverse (or_error (parse_int lib axis_text) _) _ h6 in
      let (timeout, i, h8) = bind_inverse (or_error (parse_double lib timeout_text) _) _ h7 in
      let (enable, j, h9) = bind_inverse (or_error (parse_bool lib enable_text) _) _ h8 in
      let (_, k, h10) = bind_inverse (check_watchdog u lib joint.name enable timeout) _ h9 in
      let (limits, l, h11) = bind_inverse (parse_command_limits u lib joint) _ h10 in
      let (feedback, m, h12) = bind_inverse (parse_feedback_limits u lib joint) _ h11 in
      let (_, n, h13) = bind_inverse (check_limits u lib joint.name limits) _ h12 in
      subst (IsJointOf u lib joint) (done_injective h13) (record {
        same_name = refl;
        serial_number_given = (serial_text, or_error-eq-done _ _ a, or_error-eq-done _ _ f);
        axis_given = (axis_text, or_error-eq-done _ _ b, or_error-eq-done _ _ g);
        timeout_given = (timeout_text, or_error-eq-done _ _ c, or_error-eq-done _ _ i);
        enable_given = (enable_text, or_error-eq-done _ _ d, or_error-eq-done _ _ j);
        invert_given = value_or-GivenOr false (parse_bool lib) joint "invert_axis" _ refl e;
        timeout_permitted = check_watchdog-IsTimeout joint.name enable timeout k;
        command_limits_given = parse_command_limits-AreCommandLimits joint l;
        feedback_limits_given = parse_feedback_limits-AreFeedbackLimits joint m;
        limits_uncrossed = check_limits-Uncrossed joint.name limits n;
      })

  require_joints-eq-done :
      (joints : List ComponentInfo) {a : Unit {0}}
      → require_joints u lib joints ≡ done a
      → joints ≢ []
  require_joints-eq-done [] h = cc
  require_joints-eq-done (joint ∷ joints) h = λ e. cc

  parse_each-Each :
      {A : Type 0} (parse : ComponentInfo → Parsed A) (R : ComponentInfo → A → Type 0)
      → ((info : ComponentInfo) (a : A) → parse info ≡ done a → R info a)
      → (infos : List ComponentInfo) {configs : List A}
      → parse_each u lib parse infos ≡ done configs
      → Each R infos configs
  unfolding parse_each
  parse_each-Each parse R sound [] h = subst (Each R []) (done_injective h) tt
  parse_each-Each parse R sound (info ∷ infos) h =
      let (c, e, h1) = bind_inverse (parse info) _ h in
      let (rest, e1, h2) = bind_inverse (parse_each u lib parse infos) _ h1 in
      subst (Each R (info ∷ infos)) (done_injective h2)
        (sound info c e, parse_each-Each parse R sound infos e1)

  pub parse_all-IsConfigurationOf :
      (info : HardwareInfo) {c : HardwareConfiguration W}
      → parse_all u lib info ≡ done c
      → IsConfigurationOf u lib info c
  unfolding parse_all
  parse_all-IsConfigurationOf info h =
      let (_, e, h1) = bind_inverse (require_joints u lib info.joints) _ h in
      let (sensors, e1, h2) =
        bind_inverse (parse_each u lib (parse_sensor u lib) info.sensors) _ h1 in
      let (joints, e2, h3) = bind_inverse (parse_each u lib (parse_joint u lib) info.joints) _ h2 in
      subst (IsConfigurationOf u lib info) (done_injective h3) (record {
        some_joint = require_joints-eq-done info.joints e;
        sensors_given =
            parse_each-Each (parse_sensor u lib) (IsSensorOf u lib)
              (λ i c. parse_sensor-IsSensorOf i) info.sensors e1;
        joints_given =
            parse_each-Each (parse_joint u lib) (IsJointOf u lib) (λ i c. parse_joint-IsJointOf i)
              info.joints e2;
      })
