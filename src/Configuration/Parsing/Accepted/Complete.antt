-- ===== src/Configuration/Parsing/Accepted/Complete.antt =====
-- The parser accepts exactly the descriptions that have a configuration.
use odrive_ros2_control.Prelude.{
  Each, ◌≡◌, refl, sym, ap, ◌≢◌, ◌⊎◌, inl, inr, Bool, true, false, String, Option, none, some, List,
  [], ◌∷◌,
}
use odrive_ros2_control.Fpu.{Fpu}
use odrive_ros2_control.Configuration.{
  SensorConfig, CommandLimits, FeedbackLimits, JointConfig, HardwareConfiguration,
}
use odrive_ros2_control.Configuration.Conversions.{Conversions, parse_bool}
use odrive_ros2_control.Configuration.Parsing.{
  ComponentInfo, HardwareInfo, ConfigError, Parsed, done, refused, parse_or, store_parsed,
  parse_optional_double, parse_sensor, parse_command_limits, parse_feedback_limits, check_watchdog,
  check_limits, parse_joint, parse_each, require_joints, parse_all, parse_hardware_configuration,
}
use odrive_ros2_control.Configuration.Parsing.Accepted.{
  GivenOr, IsLimit, IsSensorOf, AreCommandLimits, AreFeedbackLimits, IsTimeout, Uncrossed,
  IsJointOf, IsConfigurationOf,
}
use odrive_ros2_control.Configuration.Parsing.Accepted.Sound.{parse_all-IsConfigurationOf}

module _ {W F : Type 0} (u : Fpu W F) (lib : Conversions W) where
  open u use {lt, le}

  parse_optional_double_accepts :
      (info : ComponentInfo) (key : String) (v : Option W)
      → IsLimit u lib info key v
      → parse_optional_double u lib info key ≡ done v
  unfolding parse_optional_double
  parse_optional_double_accepts info key none h = rw h refl
  parse_optional_double_accepts info key (some value) (text, e, p) = rw (e, p) refl

  parse_sensor_accepts :
      (sensor : ComponentInfo) (c : SensorConfig)
      → IsSensorOf u lib sensor c
      → parse_sensor u lib sensor ≡ done c
  unfolding parse_sensor
  parse_sensor_accepts sensor c h =
      let (text, e, p) = h.serial_number_given in
      rw (e, p) (ap (λ (n : String). done (record c { name = n })) (sym h.same_name))

  parse_command_limits_accepts :
      (joint : ComponentInfo) (l : CommandLimits W)
      → AreCommandLimits u lib joint l
      → parse_command_limits u lib joint ≡ done l
  unfolding parse_command_limits
  parse_command_limits_accepts joint l h =
      let accepts = parse_optional_double_accepts joint in
      rw
        (
          accepts _ _ h.position_min_given,
          accepts _ _ h.position_max_given,
          accepts _ _ h.velocity_min_given,
          accepts _ _ h.velocity_max_given,
          accepts _ _ h.effort_min_given,
          accepts _ _ h.effort_max_given,
          accepts _ _ h.position_rate_given,
          accepts _ _ h.velocity_rate_given,
          accepts _ _ h.effort_rate_given,
        )
        refl

  parse_feedback_limits_accepts :
      (joint : ComponentInfo) (l : FeedbackLimits W)
      → AreFeedbackLimits u lib joint l
      → parse_feedback_limits u lib joint ≡ done l
  unfolding parse_feedback_limits
  parse_feedback_limits_accepts joint l h =
      let accepts = parse_optional_double_accepts joint in
      rw
        (
          accepts _ _ h.velocity_given,
          accepts _ _ h.effort_given,
          accepts _ _ h.discontinuity_given,
        )
        refl

  check_watchdog_accepts :
      (name : String) (enable : Bool) (timeout : W)
      → IsTimeout u lib enable timeout
      → check_watchdog u lib name enable timeout ≡ done tt
  unfolding check_watchdog
  check_watchdog_accepts name false timeout h = refl
  check_watchdog_accepts name true timeout (e, e1) = rw (e, e1) refl

  check_limits_accepts :
      (name : String) (l : CommandLimits W)
      → Uncrossed u lib l
      → check_limits u lib name l ≡ done tt
  unfolding check_limits
  check_limits_accepts name l (e, e1, e2) = rw (e, e1, e2) refl

  value_or_accepts {ℓ} :
      {A : Type ℓ} (absent : A) (parse : String → Option A) (info : ComponentInfo) (key : String)
      (a : A)
      → GivenOr absent parse info key a
      → parse_or u lib absent parse info key ≡ done a
  value_or_accepts absent parse info key a (inl (e, p)) = rw (e, p) refl
  value_or_accepts absent parse info key a (inr (text, e, p)) = rw (e, p) refl

  parse_joint_accepts :
      (joint : ComponentInfo) (c : JointConfig W)
      → IsJointOf u lib joint c
      → parse_joint u lib joint ≡ done c
  unfolding parse_joint
  parse_joint_accepts joint c h =
      let (serial_text, a, a1) = h.serial_number_given in
      let (axis_text, b, b1) = h.axis_given in
      let (timeout_text, d, d1) = h.timeout_given in
      let (enable_text, e, e1) = h.enable_given in
      rw
        (
          a,
          b,
          d,
          e,
          value_or_accepts false (parse_bool lib) joint "invert_axis" c.invert_axis h.invert_given,
          a1,
          b1,
          d1,
          e1,
          check_watchdog_accepts joint.name c.enable_watchdog c.watchdog_timeout
              h.timeout_permitted,
          parse_command_limits_accepts joint c.command_limits h.command_limits_given,
          parse_feedback_limits_accepts joint c.feedback_limits h.feedback_limits_given,
          check_limits_accepts joint.name c.command_limits h.limits_uncrossed,
        )
        (ap (λ (n : String). done (record c { name = n })) (sym h.same_name))

  require_joints_accepts :
      (joints : List ComponentInfo) → joints ≢ [] → require_joints u lib joints ≡ done tt
  require_joints_accepts [] h = elim (h refl) [ ]
  require_joints_accepts (joint ∷ joints) h = refl

  parse_each_accepts :
      {A : Type 0} (parse : ComponentInfo → Parsed A) (R : ComponentInfo → A → Type 0)
      → ((info : ComponentInfo) (a : A) → R info a → parse info ≡ done a)
      → (infos : List ComponentInfo) (configs : List A) → Each R infos configs
      → parse_each u lib parse infos ≡ done configs
  unfolding parse_each
  parse_each_accepts parse R accepts [] [] h = refl
  parse_each_accepts parse R accepts [] (c ∷ configs) h = elim h [ ]
  parse_each_accepts parse R accepts (info ∷ infos) [] h = elim h [ ]
  parse_each_accepts parse R accepts (info ∷ infos) (c ∷ configs) (h, t) =
      rw (accepts info c h, parse_each_accepts parse R accepts infos configs t) refl

  parse_all_accepts :
      (info : HardwareInfo) (c : HardwareConfiguration W)
      → IsConfigurationOf u lib info c
      → parse_all u lib info ≡ done c
  unfolding parse_all
  parse_all_accepts info c h =
      rw
        (
          require_joints_accepts info.joints h.some_joint,
          parse_each_accepts (parse_sensor u lib) (IsSensorOf u lib) parse_sensor_accepts
              info.sensors c.sensors h.sensors_given,
          parse_each_accepts (parse_joint u lib) (IsJointOf u lib) parse_joint_accepts info.joints
              c.joints h.joints_given,
        )
        refl

  -- The parser succeeds, clears the message and assigns the configuration exactly if there is one
  -- that the parameters describe; or it fails, sets a message and leaves the configuration as it was.
  abbrev pub Decides :
      HardwareInfo
      → HardwareConfiguration W
      → Bool × HardwareConfiguration W × Option ConfigError
      → Type 0
  Decides info old (success, config, message) =
      ((success ≡ true) × (message ≡ none) × IsConfigurationOf u lib info config)
      ⊎ ((success ≡ false)
          × (config ≡ old)
          × (message ≢ none)
          × ((c : HardwareConfiguration W) → ¬ IsConfigurationOf u lib info c))

  parsed-Decides :
      (info : HardwareInfo) (old : HardwareConfiguration W) (r : Parsed (HardwareConfiguration W))
      → parse_all u lib info ≡ r
      → Decides info old (store_parsed u lib old r)
  parsed-Decides info old (done c) e = inl (refl, refl, parse_all-IsConfigurationOf u lib info e)
  parsed-Decides info old (refused m) e =
      inr (refl, refl, (λ h. cc), λ c h. let accepted = parse_all_accepts info c h in cc)

  -- Parsing succeeds, clears the message and assigns a configuration that the parameters describe; or
  -- it fails, sets a message and leaves the configuration as it was, and then the parameters describe
  -- no configuration at all. A configuration is described if there is a joint, and if every sensor and
  -- every joint, in order, has its name, its required parameters, and the optional ones that are
  -- given, each the value that its text means, with the time-out of an enabled watchdog not below 10
  -- ms, and no lower limit greater than its upper one.
  pub parse_hardware_configuration-Decides :
      (info : HardwareInfo) (old : HardwareConfiguration W)
      → Decides info old (parse_hardware_configuration u lib info old)
  unfolding parse_hardware_configuration
  parse_hardware_configuration-Decides info old =
      parsed-Decides info old (parse_all u lib info) refl
