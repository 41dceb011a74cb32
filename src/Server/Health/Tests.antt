-- ===== src/Server/Health/Tests.antt =====
-- Answers of health and of errors.
use pm_chat.Base.{◌≡◌, refl, true, false, none}
use pm_chat.Services.{failed, got}
use pm_chat.Utils.SecurityMonitor
use pm_chat.Utils.ErrorTracker
use pm_chat.Server.Health.{
  health, mongo_connecting, mongo_connected, redis_connected, redis_disconnected, detailed,
  create_error, error_handler,
}

healthy : health 1 (got "PONG") ≡ record {
  status_code = 200;
  healthy = true;
  mongodb = mongo_connected;
  redis = redis_connected;
}
unfolding health
healthy = refl

down : health 2 failed ≡ record {
  status_code = 503;
  healthy = false;
  mongodb = mongo_connecting;
  redis = redis_disconnected;
}
unfolding health
down = refl

not_in_production : detailed true SecurityMonitor.initial ErrorTracker.initial ≡ none
unfolding detailed
not_in_production = refl

hidden :
    error_handler true
      (record { message = "E11000 duplicate key"; status_code = none; expose = none })
    ≡ (500, "Erreur interne du serveur")
unfolding error_handler
hidden = refl

shown :
    error_handler true (create_error "Conversation introuvable" 404)
    ≡ (404, "Conversation introuvable")
unfolding error_handler create_error
shown = refl
