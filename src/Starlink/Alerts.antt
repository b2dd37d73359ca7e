-- ===== src/Starlink/Alerts.antt =====
-- dishAlerts, outageMessage and outageLevel of internal/starlink/events.go. What the getters of the
-- client library answer is the record Dish.
use dronservice_updates.Prelude.{
  String, Bool, ◌||◌, Option, none, some, List, [], ◌∷◌, ◌++◌, if◌then◌else◌,
}

-- device.DishOutage_Cause; `other` stands for the values without a name.
pub data Cause : Type 0 where
  unknown booting stowed thermal_shutdown no_schedule no_sats obstructed no_downlink no_pings :
      Cause
  actuator_activity cable_test sleeping sky_search inhibit_rf other : Cause

pub record AlertFlags : Type 0 where
  pub no_ethernet_link : Bool
  pub motors_stuck : Bool
  pub thermal_shutdown : Bool
  pub thermal_throttle : Bool
  pub power_supply_thermal_throttle : Bool
  pub mast_not_near_vertical : Bool
  pub unexpected_location : Bool
  pub slow_ethernet_speeds : Bool
  pub slow_ethernet_speeds_100 : Bool
  pub upsu_router_port_slow : Bool
  pub dish_water_detected : Bool
  pub router_water_detected : Bool
  pub low_motor_current : Bool
  pub lower_signal_than_predicted : Bool
  pub roaming : Bool
  pub install_pending : Bool

-- The obstruction statistics: whether the dish is obstructed now, and whether the fraction of the
-- sky that is obstructed is at least 0.01.
pub record Obstructions : Type 0 where
  pub currently_obstructed : Bool
  pub fraction_at_least_hundredth : Bool

-- The candidates that are active, in their order.
unfoldable pub active_texts : List (Bool × String) → List String
active_texts [] = []
active_texts ((active, text) ∷ rest) =
    if active then text ∷ active_texts rest else active_texts rest

unfoldable pub candidates : AlertFlags → List (Bool × String)
candidates a =
    (a.no_ethernet_link, "Нет Ethernet-линка")
    ∷ (a.motors_stuck, "Моторы антенны заклинило")
    ∷ (a.thermal_shutdown, "Термовыключение терминала")
    ∷ (a.thermal_throttle, "Термоограничение терминала")
    ∷ (a.power_supply_thermal_throttle, "Термоограничение блока питания")
    ∷ (a.mast_not_near_vertical, "Мачта отклонена от вертикали")
    ∷ (a.unexpected_location, "Неожиданное местоположение")
    ∷ (a.slow_ethernet_speeds || a.slow_ethernet_speeds_100, "Медленный Ethernet")
    ∷ (a.upsu_router_port_slow, "Медленный порт роутера")
    ∷ (a.dish_water_detected, "Обнаружена вода на антенне")
    ∷ (a.router_water_detected, "Обнаружена вода на роутере")
    ∷ (a.low_motor_current, "Низкий ток моторов")
    ∷ (a.lower_signal_than_predicted, "Сигнал ниже ожидаемого")
    ∷ (a.roaming, "Режим роуминга")
    ∷ (a.install_pending, "Ожидается установка ПО")
    ∷ []

obstruction_alerts : Option Obstructions → List String
obstruction_alerts none = []
obstruction_alerts (some s) =
    if s.currently_obstructed || s.fraction_at_least_hundredth
    then "Препятствия в зоне обзора" ∷ []
    else []

-- The alerts of a dish that is there.
unfoldable pub dish_alerts : Option Obstructions → Option AlertFlags → List String
unfolding active_texts candidates obstruction_alerts
dish_alerts obstructions none = obstruction_alerts obstructions
dish_alerts obstructions (some flags) =
    obstruction_alerts obstructions ++ active_texts (candidates flags)

unfoldable pub outage_message : Cause → String
outage_message Cause.booting = "Терминал загружается"
outage_message Cause.stowed = "Антенна сложена"
outage_message Cause.thermal_shutdown = "Термовыключение"
outage_message Cause.no_schedule = "Нет расписания спутников"
outage_message Cause.no_sats = "Нет спутников в зоне видимости"
outage_message Cause.obstructed = "Связь прервана из-за препятствий"
outage_message Cause.no_downlink = "Нет нисходящего канала"
outage_message Cause.no_pings = "Нет ответа наземной станции"
outage_message Cause.actuator_activity = "Антенна позиционируется"
outage_message Cause.cable_test = "Выполняется тест кабеля"
outage_message Cause.sleeping = "Терминал в спящем режиме"
outage_message Cause.sky_search = "Поиск открытого неба"
outage_message Cause.inhibit_rf = "Радиоканал отключён"
outage_message _ = "Сбой подключения Starlink"

unfoldable pub outage_level : Cause → String
outage_level Cause.booting = "warning"
outage_level Cause.actuator_activity = "warning"
outage_level Cause.sky_search = "warning"
outage_level Cause.sleeping = "warning"
outage_level Cause.cable_test = "warning"
outage_level _ = "error"
